-- ===== src/Python/Library.antt =====
-- What the program uses of the crate `pyo3`: Python objects, how they are made and read, and
-- dictionaries with texts as keys.
use trap.Shared.{ℕ, ◌<◌, ◌≡◌, Bool, if◌then◌else◌, List, list_eq, Result, ok, err, Run}
use trap.Text.Utf8.{Str, Bytes}
use trap.Asgi.Events.{Headers}

-- `PyErr`, by the text that it displays
pub record PyErr : Type 0 where
  pub display : Str

-- Making an object and reading it back gives the value, and `None` is no text, bytes, number, truth
-- value or list of pairs. A dictionary takes every text as a key, and has what it was last given.
pub record PyCrate (P D : Type 0) : Type 0 where
  -- `PyString::new`, `PyBytes::new`, `into_pyobject` of a `bool` and of a number, `PyNone::get`
  pub new_str : Str → P
  pub new_bytes : Bytes → P
  pub new_bool : Bool → P
  pub new_int : ℕ → P
  pub none : P
  -- a list of pairs of bytes, a list, and a dictionary as an object
  pub new_pairs : Headers → P
  pub new_list : List P → P
  pub of_dict : D → P
  -- `extract` at the types that the source names, `cast` to a text and to a mapping
  pub extract_u16 : P → Result ℕ PyErr
  pub extract_bytes : P → Result Bytes PyErr
  pub extract_bool : P → Result Bool PyErr
  pub extract_str : P → Result Str PyErr
  pub extract_pairs : P → Result Headers PyErr
  pub cast_str : P → Result Str PyErr
  pub cast_mapping : P → Result D PyErr
  -- `PyDict::new`, `set_item`, `get_item`
  pub new_dict : D
  pub set_item : Str → P → Run D PyErr (Unit {0})
  pub get_item : Str → D → Result P PyErr
  -- `PyValueError::new_err`, `PyIOError::new_err`
  pub value_error : Str → PyErr
  pub io_error : Str → PyErr
  pub extract_u16-new_int : (n : ℕ) → n < 65536 → extract_u16 (new_int n) ≡ ok n
  pub extract_bytes-new_bytes : (b : Bytes) → extract_bytes (new_bytes b) ≡ ok b
  pub extract_bool-new_bool : (b : Bool) → extract_bool (new_bool b) ≡ ok b
  pub extract_str-new_str : (s : Str) → extract_str (new_str s) ≡ ok s
  pub extract_pairs-new_pairs : (h : Headers) → extract_pairs (new_pairs h) ≡ ok h
  pub cast_str-new_str : (s : Str) → cast_str (new_str s) ≡ ok s
  pub cast_mapping-of_dict : (d : D) → cast_mapping (of_dict d) ≡ ok d
  pub extract_u16-none : (e : PyErr) × (extract_u16 none ≡ err e)
  pub extract_bytes-none : (e : PyErr) × (extract_bytes none ≡ err e)
  pub extract_bool-none : (e : PyErr) × (extract_bool none ≡ err e)
  pub extract_str-none : (e : PyErr) × (extract_str none ≡ err e)
  pub extract_pairs-none : (e : PyErr) × (extract_pairs none ≡ err e)
  pub set_item_total : (k : Str) (v : P) (d : D) → (set_item k v d).1 ≡ ok tt
  pub get_item-set_item :
      (j k : Str) (v : P) (d : D)
      → get_item j (set_item k v d).0 ≡ (if list_eq k j then ok v else get_item j d)
