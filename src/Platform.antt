-- ===== src/Platform.antt =====
-- What the program takes from the Python installation and its machine: parameters of the model.
use Prim.Native.Char.{Char}
use artifact_proof_lab.Base.{ℕ, String, Bool, Option, List}
use artifact_proof_lab.Base.Outcome.{Result}
use artifact_proof_lab.Json.{Json, Number, Decimal}

abbrev pub Bytes : Type 0
Bytes = List ℕ

-- The outcome of `json.loads(data.decode("utf-8"), ...)` before the object hook runs.
pub data Decoded (N : Type 0) : Type 0 where
  not_utf8 malformed : Decoded N
  -- an exception that is no JSONDecodeError: recursion or digit limits
  failed : String → Decoded N
  tree : Json N → Decoded N

-- zipfile.ZipInfo
pub record ZipInfo : Type 0 where
  pub filename : String
  pub external_attr : ℕ
  pub flag_bits : ℕ
  pub file_size : ℕ
  pub compress_size : ℕ

pub record Platform : Type 0 where
  -- hashlib.sha256(data).hexdigest()
  pub sha256 : Bytes → String
  -- unicodedata.normalize("NFC", raw)
  pub nfc : String → String
  -- json.loads with its default number types
  pub loads : Bytes → Decoded Number
  -- json.loads with parse_int=Decimal, parse_float=Decimal, and non-standard constants refused
  pub loads_strict : Bytes → Decoded Decimal
  -- whether a float, by its repr, equals an integer
  pub float_is : String → ℕ → Bool
  -- str.isdigit of one character, and the digit that int() reads in it, if it reads one
  pub is_digit : Char → Bool
  pub decimal_digit : Char → Option ℕ
  -- the rows of PRAGMA quick_check or integrity_check on a database; none is DatabaseError
  pub sqlite_quick : Bytes → Option (List String)
  pub sqlite_full : Bytes → Option (List String)
  -- sys.implementation.name, sys.version_info[:2], platform.system(), platform.machine()
  pub python_implementation : String
  pub python_major : ℕ
  pub python_minor : ℕ
  pub platform_system : String
  pub platform_machine : String
  -- the entries of an archive held in memory; none is BadZipFile
  pub zip_entries : Bytes → Option (List ZipInfo)
  -- up to `limit` bytes of a member of an archive, or the exception that reading it raises
  pub zip_read : Bytes → ZipInfo → ℕ → Result Bytes
