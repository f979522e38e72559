-- ===== src/Examples/Interpreters.antt =====
-- A small Python for the examples: values, and dictionaries as lists of entries, the newest first.
use trap.Shared.{
  ℕ, ◌<◌, ◌≡◌, refl, Bool, List, [], ◌∷◌, list_eq, ltb, Result, ok, err, arith, if◌then◌else◌,
}
use trap.Text.Utf8.{Str, Bytes, str}
use trap.Asgi.Events.{Headers}
use trap.Python.Library.{PyErr, PyCrate}

mutual
  pub data Value : Type 0 where
    text : Str → Value
    raw : Bytes → Value
    truth : Bool → Value
    number : ℕ → Value
    nothing : Value
    pairs : Headers → Value
    items : Values → Value
    dictionary : Entries → Value

  pub data Values : Type 0 where
    no_values : Values
    more_values : Value → Values → Values

  pub data Entries : Type 0 where
    no_entries : Entries
    entry : Str → Value → Entries → Entries

abbrev type_error : PyErr
type_error = record { display = str "TypeError" }

abbrev values_of : List Value → Values
values_of [] = no_values
values_of (v ∷ vs) = more_values v (values_of vs)

abbrev to_u16 : Value → Result ℕ PyErr
to_u16 (number n) = if ltb n 65536 then ok n else err (record { display = str "OverflowError" })
to_u16 _ = err type_error

abbrev to_bytes : Value → Result Bytes PyErr
to_bytes (raw b) = ok b
to_bytes _ = err type_error

abbrev to_bool : Value → Result Bool PyErr
to_bool (truth b) = ok b
to_bool _ = err type_error

abbrev to_str : Value → Result Str PyErr
to_str (text s) = ok s
to_str _ = err type_error

abbrev to_pairs : Value → Result Headers PyErr
to_pairs (pairs h) = ok h
to_pairs _ = err type_error

abbrev to_mapping : Value → Result Entries PyErr
to_mapping (dictionary d) = ok d
to_mapping _ = err type_error

abbrev find : Str → Entries → Result Value PyErr
find k no_entries = err (record { display = str "KeyError" })
find k (entry j v d) = if list_eq j k then ok v else find k d

pub to_u16_small : (n : ℕ) → n < 65536 → to_u16 (number n) ≡ ok n
to_u16_small n h = ground arith

abbrev pub python : PyCrate Value Entries
python = record {
  new_str = text;
  new_bytes = raw;
  new_bool = truth;
  new_int = number;
  none = nothing;
  new_pairs = pairs;
  new_list = λ vs. items (values_of vs);
  of_dict = dictionary;
  extract_u16 = to_u16;
  extract_bytes = to_bytes;
  extract_bool = to_bool;
  extract_str = to_str;
  extract_pairs = to_pairs;
  cast_str = to_str;
  cast_mapping = to_mapping;
  new_dict = no_entries;
  set_item = λ k v d. (entry k v d, ok tt);
  get_item = find;
  value_error = λ m. record { display = m };
  io_error = λ m. record { display = m };
  extract_u16-new_int = to_u16_small;
  extract_bytes-new_bytes = λ b. refl;
  extract_bool-new_bool = λ b. refl;
  extract_str-new_str = λ s. refl;
  extract_pairs-new_pairs = λ h. refl;
  cast_str-new_str = λ s. refl;
  cast_mapping-of_dict = λ d. refl;
  extract_u16-none = (_, refl);
  extract_bytes-none = (_, refl);
  extract_bool-none = (_, refl);
  extract_str-none = (_, refl);
  extract_pairs-none = (_, refl);
  set_item_total = λ k v d. refl;
  get_item-set_item = λ j k v d. refl;
}
