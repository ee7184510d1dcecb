-- ===== src/Install/Quiet.antt =====
-- tools/install-dot.py, steps 5 to 7 of main: what goes to userdata keeps the history in order.
use techo5_dot.Prelude.{
  refl, inr, List, [], ◌∷◌, Bytes, if◌then◌else◌, Bool, true, false, Option, none, some,
}
use techo5_dot.Install.Commands.{
  Plan, Command, install_slot, twrp_md5, make_ssh_dir, read_keys, make_wifi_dir, make_models_dir,
  make_state_dir, forget_owner, make_model_dir, chmod_models, chmod, write_local, remove_local,
  make_local_dir, remove_local_dir,
}
use techo5_dot.Install.Session.{History, Device, M, ◌>>=◌, ◌>>◌, return, sh, do_sh, push_file}
use techo5_dot.Console.Unit.{includes}
use techo5_dot.Install.Steps.{
  push_text, allow_key, join_wifi, name_it, give_away, push_models, add_models, provision,
  slot_installed, twrp_fits, keys_path, with_key, second_word,
}
use techo5_dot.Install.Protocol.{
  Slotted, TwrpKept, Ready, Allowed, Ordered, Extends, Extends-trans, Replied-Extends, Runs,
  >>-Runs,
}
use techo5_dot.Install.Ordered.{return-Runs, do_sh-Runs, push_file-Runs}

module _ (u : Device) (p : Plan) where
  -- A part that any history allows in which slot and TWRP copy are there.
  abbrev pub IsQuiet : M (Unit {0}) → Type 0
  IsQuiet m = (h : History) → Ordered u p h → Ready u p h → Runs u p m h (λ _. Unit)

  Ready-Extends : (h h' : History) → Extends u p h h' → Ready u p h → Ready u p h'
  Ready-Extends h h' x (slotted, kept) = (
    Replied-Extends u p install_slot slot_installed h h' x slotted,
    Replied-Extends u p twrp_md5 (twrp_fits p) h h' x kept,
  )

  then-IsQuiet : (m k : M (Unit {0})) → IsQuiet m → IsQuiet k → IsQuiet (m >> k)
  then-IsQuiet m k a b h o r =
      >>-Runs u p m k h _ _ (a h o r) λ o1 x1 _. b (m h).1 o1 (Ready-Extends h _ x1 r)

  return-IsQuiet : IsQuiet (return tt)
  return-IsQuiet h o r = return-Runs u p h o

  ask-IsQuiet :
      (c : Command) (f : Bytes → M (Unit {0}))
      → ((h : History) → Allowed u p c h)
      → ((got : Bytes) → IsQuiet (f got))
      → IsQuiet (sh u c >>= f)
  ask-IsQuiet c f a k h o ready =
      let x : Extends u p h (c ∷ h) = (c ∷ [], refl) in
      let r = k (u.reply h c) (c ∷ h) (a h, o) (Ready-Extends h _ x ready) in
      record {
        ordered = r.ordered;
        extends = Extends-trans u p h (c ∷ h) _ x r.extends;
        after = r.after;
      }

  sh-IsQuiet : (c : Command) → ((h : History) → Ready u p h → Allowed u p c h) → IsQuiet (do_sh u c)
  sh-IsQuiet c a h o r = do_sh-Runs u p c h o (a h r)

  push-IsQuiet : (here there : Bytes) → IsQuiet (push_file u here there)
  push-IsQuiet here there h o ready =
      let r = push_file-Runs u p here there h o (inr ready) in
      record { ordered = r.ordered; extends = r.extends; after = λ _. tt }

  if_IsQuiet :
      (b : Bool) (m k : M (Unit {0})) → IsQuiet m → IsQuiet k → IsQuiet (if b then m else k)
  if_IsQuiet true m k a b = a
  if_IsQuiet false m k a b = b

  push_text-IsQuiet : (text remote : Bytes) → IsQuiet (push_text u p text remote)
  unfolding push_text
  push_text-IsQuiet text remote = then-IsQuiet _ _ (sh-IsQuiet (write_local _ text) (λ _ _. tt)) (
      then-IsQuiet _ _ (push-IsQuiet _ remote) (
        then-IsQuiet _ _ (sh-IsQuiet (remove_local _) (λ _ _. tt))
          (sh-IsQuiet (chmod _ remote) (λ _ r. r))))

  allow_key-IsQuiet : (key : Option Bytes) → IsQuiet (allow_key u p key)
  unfolding allow_key
  allow_key-IsQuiet none = return-IsQuiet
  allow_key-IsQuiet (some key) =
      ask-IsQuiet read_keys _ (λ _. tt)
        λ have.
          if_IsQuiet (includes have (second_word key)) _ _ return-IsQuiet
            (push_text-IsQuiet (with_key have key) keys_path)

  join_wifi-IsQuiet : (conf : Option Bytes) → IsQuiet (join_wifi u p conf)
  unfolding join_wifi
  join_wifi-IsQuiet none = return-IsQuiet
  join_wifi-IsQuiet (some conf) =
      then-IsQuiet _ _ (sh-IsQuiet make_wifi_dir (λ _ r. r)) (push_text-IsQuiet conf _)

  name_it-IsQuiet : (identity : Option (Bytes × Bytes)) → IsQuiet (name_it u p identity)
  unfolding name_it
  name_it-IsQuiet none = return-IsQuiet
  name_it-IsQuiet (some (name, psk)) =
      then-IsQuiet _ _ (sh-IsQuiet make_models_dir (λ _ r. r))
        (then-IsQuiet _ _ (push_text-IsQuiet name _) (push_text-IsQuiet psk _))

  give_away-IsQuiet : (gift : Bool) → IsQuiet (give_away u p gift)
  unfolding give_away
  give_away-IsQuiet false = return-IsQuiet
  give_away-IsQuiet true = then-IsQuiet _ _ (sh-IsQuiet make_state_dir (λ _ r. r)) (
      then-IsQuiet _ _ (push_text-IsQuiet [] _) (
        then-IsQuiet _ _ (sh-IsQuiet forget_owner (λ _ r. r))
          (then-IsQuiet _ _ (sh-IsQuiet make_wifi_dir (λ _ r. r)) (push_text-IsQuiet _ _))))

  push_models-IsQuiet : (ms : List Bytes) → IsQuiet (push_models u p ms)
  unfolding push_models
  push_models-IsQuiet [] = return-IsQuiet
  push_models-IsQuiet (m ∷ ms) = then-IsQuiet _ _ (push-IsQuiet _ _) (push_models-IsQuiet ms)

  add_models-IsQuiet : (ms : Option (List Bytes)) → IsQuiet (add_models u p ms)
  unfolding add_models
  add_models-IsQuiet none = return-IsQuiet
  add_models-IsQuiet (some ms) =
      then-IsQuiet _ _ (sh-IsQuiet make_model_dir (λ _ r. r))
        (then-IsQuiet _ _ (push_models-IsQuiet ms) (sh-IsQuiet chmod_models (λ _ r. r)))

  -- What goes to userdata.
  pub provision-Runs :
      (h : History)
      → Ordered u p h
      → Slotted u p h
      → TwrpKept u p h
      → Runs u p (provision u p) h (λ _. Unit)
  unfolding provision
  provision-Runs h o slotted kept =
      >>-Runs u p _ _ h _ _ (do_sh-Runs u p (make_local_dir p.provision_dir) h o tt) λ o1 x1 _.
        >>-Runs u p _ _ _ _ _ (do_sh-Runs u p make_ssh_dir _ o1 (inr slotted, inr kept)) λ o2 x2 _.
          then-IsQuiet _ _ (allow_key-IsQuiet p.ssh_key)
            (then-IsQuiet _ _ (join_wifi-IsQuiet p.wifi_conf) (
              then-IsQuiet _ _ (name_it-IsQuiet p.identity) (
                then-IsQuiet _ _ (give_away-IsQuiet p.for_someone_else) (
                  then-IsQuiet _ _ (add_models-IsQuiet p.models)
                    (sh-IsQuiet (remove_local_dir p.provision_dir) (λ _ _. tt))))))
            _ o2 (inr (inr slotted), inr (inr kept))
