-- ===== src/Command/Misuse.antt =====
-- Which command lines the program refuses as a misuse, with the exit code 2.
use mqtt2prometheus.Base.{
  Text, ℕ, ◌≡◌, ◌↔◌, refl, sym, ◌∙◌, eq_iff, Bool, true, false, ◌==◌, codes, Option, none, List, [],
  ◌∷◌, if◌then◌else◌, arith,
}
use mqtt2prometheus.Base.Dict.{lookup}
use mqtt2prometheus.Platform.{Platform}
use mqtt2prometheus.Outcome.{
  Misuse, no_subcommand, unknown_subcommand, usage_error, help, dir_not_set, load_error, invalid,
  uncompiled, failed, nil_pointer, ok, err, Status,
}
use mqtt2prometheus.Command.{Subcommand, dispatch}
use mqtt2prometheus.Command.Execute.{
  World, Printed, usage_text, exit_code, usage, perform, forgive_help, execute,
}
use mqtt2prometheus.Command.Blames.{blames}
use mqtt2prometheus.Command.Subcommands.{
  blames-run_command, blames-verify, blames-healthcheck, blames-version, blames-discover,
  blames-capture,
}
use mqtt2prometheus.Command.Grammar.{
  Refusal, nothing, of_discover, of_capture, misparsed, misused, is_misuse,
}

exit_code-eq-two : {E : Type 0} (m : Status E) → (exit_code m ≡ 2) ↔ (blames m ≡ true)
unfolding exit_code
exit_code-eq-two (ok _) = ground arith
exit_code-eq-two (err (usage_error m)) = ground arith
exit_code-eq-two (err help) = ground arith
exit_code-eq-two (err dir_not_set) = ground arith
exit_code-eq-two (err (load_error e)) = ground arith
exit_code-eq-two (err (invalid ps)) = ground arith
exit_code-eq-two (err uncompiled) = ground arith
exit_code-eq-two (err (failed es)) = ground arith
exit_code-eq-two (err nil_pointer) = ground arith

module _ (P : Platform) {E : Type 0} (w : World P E)
    (writes : (p : Printed) → w.write p ≡ none) where
  open P use {Float}

  blames-usage : (m : Misuse) → blames (usage P w m) ≡ true
  unfolding usage
  blames-usage m = rw (writes usage_text) refl

  blames-forgive_help : (m : Status E) → blames (forgive_help P w m) ≡ blames m
  blames-forgive_help (ok _) = refl
  blames-forgive_help (err (usage_error m)) = refl
  blames-forgive_help (err help) = refl
  blames-forgive_help (err dir_not_set) = refl
  blames-forgive_help (err (load_error e)) = refl
  blames-forgive_help (err (invalid ps)) = refl
  blames-forgive_help (err uncompiled) = refl
  blames-forgive_help (err (failed es)) = refl
  blames-forgive_help (err nil_pointer) = refl

  blames-pick :
      (name : Text) (args : List Text) (b : Bool) (x y : Subcommand) (o q : Option (ℕ × Refusal))
      → (b ≡ true → blames (perform P w x) ≡ misused w.parse_flags name args o)
      → blames (perform P w y) ≡ misused w.parse_flags name args q
      → blames (perform P w (if b then x else y))
        ≡ misused w.parse_flags name args (if b then o else q)
  blames-pick name args true x y o q h k = h refl
  blames-pick name args false x y o q h k = k

  blames-perform :
      (args : List Text) → blames (perform P w (dispatch args)) ≡ is_misuse w.parse_flags args
  unfolding perform dispatch lookup
  blames-perform [] = blames-usage no_subcommand
  blames-perform (name ∷ args) =
      blames-pick name args (name == codes "run") _ _ _ _
        (λ e. under (codes "run") 0 nothing _ e (blames-run_command P w writes args))
        (blames-pick name args (name == codes "verify") _ _ _ _
          (λ e. under (codes "verify") 0 nothing _ e (blames-verify P w writes args))
          (blames-pick name args (name == codes "healthcheck") _ _ _ _
            (λ e. under (codes "healthcheck") 0 nothing _ e (blames-healthcheck P w writes args))
            (blames-pick name args (name == codes "version") _ _ _ _
              (λ e. under (codes "version") 0 nothing _ e (blames-version P w writes args))
              (blames-pick name args (name == codes "discover") _ _ _ _
                (λ e. under (codes "discover") 1 of_discover _ e (blames-discover P w writes args))
                (blames-pick name args (name == codes "capture") _ _ _ _
                  (λ e. under (codes "capture") 1 of_capture _ e (blames-capture P w writes args))
                  (blames-usage (unknown_subcommand name)))))))
    where
      under :
          (key : Text) (max : ℕ) (wrong : Refusal) (b : Bool)
          → (name == key) ≡ true
          → b ≡ misparsed max wrong (w.parse_flags key args)
          → b ≡ misparsed max wrong (w.parse_flags name args)
      under key max wrong b e h = cc (h, (eq_iff name key).0 e)

  -- Where the usage, the notices and the version can be written, the program ends with the code 2
  -- exactly if its command line is a misuse: no subcommand or an unknown one, flags that do not parse
  -- other than by asking for help, too many arguments, or values that `discover` or `capture` refuses.
  -- In particular a nil pointer of the configuration, which ends with 2 as well, is never met.
  pub misuse_lem :
      (args : List Text)
      → (exit_code (execute P w args) ≡ 2) ↔ (is_misuse w.parse_flags args ≡ true)
  unfolding execute
  misuse_lem args =
      let same = blames-forgive_help (perform P w (dispatch args)) ∙ blames-perform args in
      let (to, from) = exit_code-eq-two (execute P w args) in
      (λ h. sym same ∙ to h, λ h. from (same ∙ h))
