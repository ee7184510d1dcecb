-- ===== src/Network/Identity.antt =====
-- tools/install-dot.py: `readable_name`, and step 4 of main: the name and the key that Home
-- Assistant knows the unit by.
use techo5_dot.Prelude.{
  ℕ, ◌-◌, List, [], ◌∷◌, Bytes, codes, strip, among, map, get_elem?, is_empty, leb, if◌then◌else◌,
  Bool, not, ◌&&◌, Option, none, some, Result, ok, err,
}
use techo5_dot.Asking.Units.{Refusal, bad_key_file, Answer, spaces}
use techo5_dot.Asking.Questions.{ask_name, valid_api_key}

-- Windows-1252 from 0x80 to 0x9f, with the undefined bytes as Latin-1 has them.
abbrev pub cp1252_high : List ℕ
cp1252_high =
    0x20AC ∷ 0x81 ∷ 0x201A ∷ 0x0192 ∷ 0x201E ∷ 0x2026 ∷ 0x2020 ∷ 0x2021 ∷ 0x02C6 ∷ 0x2030 ∷ 0x0160
    ∷ 0x2039 ∷ 0x0152 ∷ 0x8D ∷ 0x017D ∷ 0x8F ∷ 0x90 ∷ 0x2018 ∷ 0x2019 ∷ 0x201C ∷ 0x201D ∷ 0x2022
    ∷ 0x2013 ∷ 0x2014 ∷ 0x02DC ∷ 0x2122 ∷ 0x0161 ∷ 0x203A ∷ 0x0153 ∷ 0x9D ∷ 0x017E ∷ 0x0178 ∷ []

abbrev or_itself : ℕ → Option ℕ → ℕ
or_itself b none = b
or_itself b (some c) = c

abbrev pub cp1252_char : ℕ → ℕ
cp1252_char b = if leb 0x80 b then or_itself b (get_elem? cp1252_high (b - 0x80)) else b

-- `utf8` decodes, `none` where it raises; `other` is the decoding in another code page, with
-- replacements, and `cp1252` tells whether the code page is Windows-1252.
module _ (utf8 : Bytes → Option Bytes) (other : Bytes → Bytes) (cp1252 : Bool) where
  -- `readable_name`
  unfoldable pub readable_name : Bytes → Bytes
  readable_name raw = elim (utf8 raw) [
    | some text ↦ text
    | none ↦ if cp1252 then map cp1252_char raw else other raw
  ]

-- What step 4 decides: the name and the key to write to the unit, the content of the key file by
-- then, and the name and the key that are printed at the end.
pub record Identity : Type 0 where
  pub name : Option Bytes
  pub psk : Option Bytes
  pub key_file : Option Bytes
  pub shown : Option (Bytes × Bytes)

-- What the unit says: the name as adb prints it and as its bytes, and the key.
pub record Known : Type 0 where
  pub name : Bytes
  pub raw_name : Bytes
  pub has_key : Bool
  pub key : Bytes

abbrev pub kept_file : Option Bytes → Bytes → Option Bytes
kept_file none key = some key
kept_file (some content) key = some content

abbrev pub no_identity : Option Bytes → Identity
no_identity key_file = record { name = none; psk = none; key_file = key_file; shown = none }

-- `b64decode` is that of base64 with `validate`, `new_key` what `new_api_key` gives.
module _ (utf8 : Bytes → Option Bytes) (other : Bytes → Bytes) (cp1252 : Bool)
    (b64decode : Bytes → Option Bytes) (new_key : Bytes) where
  -- The name to write again, where its bytes are not UTF-8.
  unfoldable pub rewritten : Known → Option Bytes
  rewritten k =
      if among 0xFFFD k.name
      then elim (utf8 k.raw_name) [
        | some text ↦ none
        | none ↦ some (readable_name utf8 other cp1252 k.raw_name)
      ]
      else none

  abbrev pub name_shown : Bytes → Option Bytes → Bytes
  name_shown name none = name
  name_shown name (some again) = again

  abbrev pub key_again : Option Bytes → Bytes → Option Bytes
  key_again none key = none
  key_again (some _) key = some key

  -- A unit that has an identity keeps it.
  unfoldable pub keep_identity : Known → Option Bytes → Identity
  keep_identity k key_file =
      if valid_api_key b64decode k.key
      then record {
        name = rewritten k;
        psk = key_again (rewritten k) k.key;
        key_file = kept_file key_file k.key;
        shown = some (name_shown k.name (rewritten k), k.key);
      }
      else no_identity key_file

  -- The key of the key file, which has to be one, or a new one.
  unfoldable pub key_for : Option Bytes → Result Refusal Bytes
  key_for none = ok new_key
  key_for (some content) =
      if valid_api_key b64decode (strip spaces content)
      then ok (strip spaces content)
      else err bad_key_file

  abbrev pub with_key : Bytes → Option Bytes → Result Refusal Bytes → Result Refusal Identity
  with_key name key_file (err e) = err e
  with_key name key_file (ok psk) = ok (record {
    name = some name;
    psk = some psk;
    key_file = kept_file key_file psk;
    shown = some (name, psk);
  })

  abbrev pub after_name : Option Bytes → Answer Bytes → Answer Identity
  after_name key_file (err e, lines) = (err e, lines)
  after_name key_file (ok name, lines) = (with_key name key_file (key_for key_file), lines)

  -- Step 4; `given` is --name, `key_file` what the key file holds, if it is there.
  unfoldable pub identity :
      Bool → Known → Option Bytes → Option Bytes → Bool → List Bytes → Answer Identity
  identity for_someone_else k given key_file interactive lines =
      if for_someone_else
      then (ok (no_identity key_file), lines)
      else if not (is_empty k.name) && k.has_key
      then (ok (keep_identity k key_file), lines)
      else after_name key_file (ask_name given (codes "Echo Dot") interactive lines)
