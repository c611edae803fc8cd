-- ===== src/Flow/Plan/Options/Bounds.antt =====
-- crates/robine-flow-plan/src/lib.rs: what `command_options` guarantees of the options it accepts.
use robine.Prelude.{
  ℕ, ◌≤◌, ◌<◌, ◌≡◌, refl, String, true, Option, none, some, List, [], ◌∷◌, ◌==◌, ◌&&◌, arith,
  if◌then◌else◌, ok, ◌>>=◌, ok_or, bind-eq-ok, subst, if-eq, if-eq-ok, ok_or-eq-ok, ok-injective,
  Bool-cases, inl, inr,
}
use robine.Flow.Ast.{Form, keyword, number}
use robine.Flow.Float.{F64}
use robine.Flow.Plan.{
  CommandConfirmation, transport, unconfirmed, reported, invalid_brightness, invalid_command,
  invalid_confirmation,
}
use robine.Flow.Plan.Duration.{max_wait_milliseconds, duration_milliseconds_bounds}
use robine.Flow.Plan.Options.{
  Seen, CommandOptions, is_none, nothing_seen, brightness_of, timeout_of, confirmation_of,
  read_option, read_options, settle, command_options,
}

-- A duration that a plan may hold: positive, and at most thirty days.
abbrev pub IsDuration : ℕ → Type 0
IsDuration n = (0 < n) × (n ≤ max_wait_milliseconds)

abbrev pub IsTimeout : Option ℕ → Type 0
IsTimeout none = Unit
IsTimeout (some n) = IsDuration n

module _ {F : Type 0} (f : F64 F) where
  open f use {from_nat, le_f64, parse_f64}

  -- A brightness that is given lies between 0 and 100.
  abbrev pub IsBrightness : Option F → Type 0
  IsBrightness none = Unit
  IsBrightness (some x) = (le_f64 (from_nat 0) x ≡ true) × (le_f64 x (from_nat 100) ≡ true)

  -- A reported confirmation has a timeout, and excludes a brightness.
  abbrev pub IsConfirmation : Option F → CommandConfirmation → Type 0
  IsConfirmation b (reported n) = IsDuration n × (b ≡ none)
  IsConfirmation b _ = Unit

  is_none-true : (o : Option F) → is_none o ≡ true → o ≡ none
  is_none-true none h = refl
  is_none-true (some x) h = cc

  record IsSeen (s : Seen F) : Type 0 where
    bright : IsBrightness s.brightness
    timed : IsTimeout s.timeout

  abbrev pub Bounded : CommandOptions F → Type 0
  Bounded o = IsBrightness o.brightness × IsConfirmation o.brightness o.confirmation

  abbrev in_percent : Option F → Option F
  in_percent none = none
  in_percent (some x) = if le_f64 (from_nat 0) x && le_f64 x (from_nat 100) then some x else none

  in_percent_bounds :
      (o : Option F) (x : F)
      → ok_or invalid_brightness (in_percent o) ≡ ok x
      → IsBrightness (some x)
  in_percent_bounds none x h = cc
  in_percent_bounds (some y) x h = ground arith

  brightness_of_bounds : (v : Form) (x : F) → brightness_of f v ≡ ok x → IsBrightness (some x)
  unfolding brightness_of
  brightness_of_bounds (number literal (some unit)) x h = elim (Bool-cases (unit == "%")) [
    | inl e ↦ in_percent_bounds (parse_f64 literal) x (rw e at h)
    | inr e ↦ let h' = (rw e at h) in cc h'
  ]
  brightness_of_bounds _ x h = cc

  timeout_of_bounds : (v : Form) (n : ℕ) → timeout_of f v ≡ ok n → IsDuration n
  unfolding timeout_of
  timeout_of_bounds (number literal (some unit)) n h = duration_milliseconds_bounds f literal unit h
  timeout_of_bounds _ n h = cc

  with_brightness :
      (s t : Seen F) (v : Form)
      → IsSeen s
      → (brightness_of f v >>= λ b. ok (record s { brightness = some b })) ≡ ok t
      → IsSeen t
  with_brightness s t v h e =
      let (b, known, same) = bind-eq-ok (brightness_of f v) _ e in
      subst IsSeen (ok-injective same)
        (record { bright = brightness_of_bounds v b known; timed = h.timed })

  with_confirmation :
      (s t : Seen F) (v : Form)
      → IsSeen s
      → (confirmation_of v >>= λ c. ok (record s { confirmation = some c })) ≡ ok t
      → IsSeen t
  with_confirmation s t v h e =
      let (c, known, same) = bind-eq-ok (confirmation_of v) _ e in
      subst IsSeen (ok-injective same) (record { bright = h.bright; timed = h.timed })

  with_timeout :
      (s t : Seen F) (v : Form)
      → IsSeen s
      → (timeout_of f v >>= λ n. ok (record s { timeout = some n })) ≡ ok t
      → IsSeen t
  with_timeout s t v h e =
      let (n, known, same) = bind-eq-ok (timeout_of f v) _ e in
      subst IsSeen (ok-injective same)
        (record { bright = h.bright; timed = timeout_of_bounds v n known })

  read_option-IsSeen :
      (s t : Seen F) (key : String) (v : Form) → IsSeen s → read_option f s key v ≡ ok t → IsSeen t
  unfolding read_option
  read_option-IsSeen s t key v h e = elim (if-eq (key == "brightness" && is_none s.brightness) e) [
    | inl e ↦ with_brightness s t v h e
    | inr e ↦ elim (if-eq (key == "confirm" && is_none s.confirmation) e) [
      | inl e ↦ with_confirmation s t v h e
      | inr e ↦
          with_timeout s t v h
            (if-eq-ok (key == "timeout" && is_none s.timeout) invalid_command e).1
    ]
  ]

  read_options-IsSeen :
      (s t : Seen F) (options : List Form) → IsSeen s → read_options f s options ≡ ok t → IsSeen t
  unfolding read_options
  read_options-IsSeen s t [] h e = subst IsSeen (ok-injective e) h
  read_options-IsSeen s t (keyword key ∷ value ∷ rest) h e =
      let (u, first, others) = bind-eq-ok (read_option f s key value) _ e in
      read_options-IsSeen u t rest (read_option-IsSeen s u key value h first) others
  read_options-IsSeen s t _ h e = cc

  settle-IsConfirmation :
      (s : Seen F) (o : Option CommandConfirmation) (c : CommandConfirmation)
      → IsSeen s
      → settle f s o ≡ ok c
      → IsConfirmation s.brightness c
  unfolding settle
  settle-IsConfirmation s (some (reported _)) c h e =
      let (dark, e') = if-eq-ok (is_none s.brightness) invalid_confirmation e in
      let (n, known, same) = bind-eq-ok (ok_or invalid_confirmation s.timeout) _ e' in
      subst (IsConfirmation s.brightness) (ok-injective same) (
        subst IsTimeout (ok_or-eq-ok s.timeout invalid_confirmation known) h.timed,
        is_none-true s.brightness dark,
      )
  settle-IsConfirmation s (some transport) c h e =
      subst (IsConfirmation s.brightness)
        (ok-injective (if-eq-ok (is_none s.timeout) invalid_confirmation e).1) tt
  settle-IsConfirmation s (some unconfirmed) c h e =
      subst (IsConfirmation s.brightness)
        (ok-injective (if-eq-ok (is_none s.timeout) invalid_confirmation e).1) tt
  settle-IsConfirmation s none c h e =
      subst (IsConfirmation s.brightness)
        (ok-injective (if-eq-ok (is_none s.timeout) invalid_confirmation e).1) tt

  -- The options that are accepted are within their bounds.
  pub command_options_bounds :
      (options : List Form) (o : CommandOptions F) → command_options f options ≡ ok o → Bounded o
  unfolding command_options
  command_options_bounds options o e =
      let (s, read, more) = bind-eq-ok (read_options f (nothing_seen F) options) _ e in
      let (c, known, same) = bind-eq-ok (settle f s s.confirmation) _ more in
      let h =
        read_options-IsSeen (nothing_seen F) s options (record { bright = tt; timed = tt }) read in
      let o' : CommandOptions F = record { brightness = s.brightness; confirmation = c } in
      subst Bounded (ok-injective same) (h.bright, settle-IsConfirmation s s.confirmation c h known)
