-- ===== src/Network/Provisioned.antt =====
-- tools/install-dot.py: what the unit is provisioned with.
use mathlib.Core.Path.{subst}
use techo5_dot.Prelude.{
  ◌⊎◌, ◌≡◌, refl, sym, ap, ◌∙◌, List, Bytes, codes, strip, is_empty, Bool, true, false, not, ◌&&◌,
  Bool-cases, inl, inr, Option, Option-cases, none, some, Result, ok, err, ok_injective, arith,
}
use techo5_dot.Asking.Units.{Refusal, Answer, spaces}
use techo5_dot.Asking.Questions.{ask_name, valid_api_key}
use techo5_dot.Network.Identity.{
  Identity, Known, kept_file, rewritten, keep_identity, key_for, with_key, after_name, identity,
  no_identity,
}

module _ (utf8 : Bytes → Option Bytes) (other : Bytes → Bytes) (cp1252 : Bool)
    (b64decode : Bytes → Option Bytes) (new_key : Bytes) where
  -- What step 4 makes sure of: the key that is printed for Home Assistant is one of 32 bytes, a key
  -- that is written to the unit is the one printed, with a name, and the key file that was there
  -- is as it was.
  pub record Provisioned (key_file : Option Bytes) (i : Identity) : Type 0 where
    pub shown_key :
        (i.shown ≡ none)
        ⊎ ((name : Bytes) × (key : Bytes) × (i.shown ≡ some (name, key))
            × (valid_api_key b64decode key ≡ true))
    pub written :
        (i.psk ≡ none)
        ⊎ ((name : Bytes) × (key : Bytes) × (i.psk ≡ some key)
            × (i.name ≡ some name)
            × (i.shown ≡ some (name, key)))
    pub kept : (key_file ≡ none) ⊎ (i.key_file ≡ key_file)

  no_identity-Provisioned : (key_file : Option Bytes) → Provisioned key_file (no_identity key_file)
  no_identity-Provisioned key_file = record {
    shown_key = inl refl;
    written = inl refl;
    kept = inr refl;
  }

  kept_file-kept :
      (key_file : Option Bytes) (key : Bytes)
      → (key_file ≡ none) ⊎ (kept_file key_file key ≡ key_file)
  kept_file-kept none key = inl refl
  kept_file-kept (some c) key = inr refl

  keep_identity-Provisioned :
      (k : Known) (key_file : Option Bytes)
      → Provisioned key_file (keep_identity utf8 other cp1252 b64decode new_key k key_file)
  unfolding keep_identity
  keep_identity-Provisioned k key_file = elim (Bool-cases (valid_api_key b64decode k.key)) [
    | inr bad ↦ rw bad (no_identity-Provisioned key_file)
    | inl good ↦ rw good (elim (Option-cases (rewritten utf8 other cp1252 b64decode new_key k)) [
      | inl same_name ↦ rw same_name (record {
        shown_key = inr (_, _, refl, good);
        written = inl refl;
        kept = kept_file-kept key_file k.key;
      })
      | inr (again, is_again) ↦ rw is_again (record {
        shown_key = inr (_, _, refl, good);
        written = inr (_, _, refl, refl, refl);
        kept = kept_file-kept key_file k.key;
      })
    ])
  ]

  key_for-valid :
      (key_file : Option Bytes) {psk : Bytes}
      → valid_api_key b64decode new_key ≡ true
      → key_for utf8 other cp1252 b64decode new_key key_file ≡ ok psk
      → valid_api_key b64decode psk ≡ true
  unfolding key_for
  key_for-valid none fresh h = ap (valid_api_key b64decode) (sym (ok_injective h)) ∙ fresh
  key_for-valid (some c) {psk} fresh h =
      elim (Bool-cases (valid_api_key b64decode (strip spaces c))) [
        | inl good ↦
            ap (valid_api_key b64decode) (sym (let e : strip spaces c ≡ psk = ground arith in e))
            ∙ good
        | inr bad ↦ absurd (ground arith)
      ]

  with_key-Provisioned :
      (name : Bytes) (key_file : Option Bytes) (r : Result Refusal Bytes) {i : Identity}
      → ((psk : Bytes) → r ≡ ok psk → valid_api_key b64decode psk ≡ true)
      → with_key utf8 other cp1252 b64decode new_key name key_file r ≡ ok i
      → Provisioned key_file i
  with_key-Provisioned name key_file (err e) valid h = absurd (ground arith)
  with_key-Provisioned name key_file (ok psk) valid h =
      subst (Provisioned key_file) (ok_injective h) (record {
        shown_key = inr (name, psk, refl, valid psk refl);
        written = inr (name, psk, refl, refl, refl);
        kept = kept_file-kept key_file psk;
      })

  after_name-Provisioned :
      (key_file : Option Bytes) (a : Answer Bytes) {i : Identity}
      → valid_api_key b64decode new_key ≡ true
      → (after_name utf8 other cp1252 b64decode new_key key_file a).0 ≡ ok i
      → Provisioned key_file i
  after_name-Provisioned key_file (err e, lines) fresh h = absurd (ground arith)
  after_name-Provisioned key_file (ok name, lines) fresh h =
      with_key-Provisioned name key_file _ (λ psk e. key_for-valid key_file fresh e) h

  -- When step 4 ends, with new keys being of 32 bytes: the key printed for Home Assistant is one of
  -- 32 bytes, one that is written to the unit is the key printed, under the name printed, and a key
  -- file that was there is as it was. This is so for a unit that has an identity, one that has
  -- none, and a gift.
  pub identity-Provisioned :
      (for_someone_else : Bool) (k : Known) (given key_file : Option Bytes) (interactive : Bool)
      (lines : List Bytes) {i : Identity}
      → valid_api_key b64decode new_key ≡ true
      → (identity utf8 other cp1252 b64decode new_key for_someone_else k given key_file interactive
          lines).0
        ≡ ok i
      → Provisioned key_file i
  unfolding identity
  identity-Provisioned true k given key_file interactive lines fresh h =
      subst (Provisioned key_file) (ok_injective h) (no_identity-Provisioned key_file)
  identity-Provisioned false k given key_file interactive lines {i} fresh h =
      elim (Bool-cases (not (is_empty k.name) && k.has_key)) [
        | inl known ↦
            subst (Provisioned key_file)
              (let e : keep_identity utf8 other cp1252 b64decode new_key k key_file ≡ i =
                  ground arith in
                e)
              (keep_identity-Provisioned k key_file)
        | inr unknown ↦
            after_name-Provisioned key_file (ask_name given (codes "Echo Dot") interactive lines)
              fresh (ground arith)
      ]
