-- ===== src/Flow/Check/Supported.antt =====
-- crates/robine-flow-check/src/lib.rs: what a command without diagnostics is known to be.
use robine.Prelude.{
  ℕ, ◌≡◌, refl, subst, String, Bool, true, false, Option, none, some, List, [], ◌∷◌, ◌++◌, ◌==◌,
  ◌&&◌, not, eq_iff, inl, inr, Bool-cases, ok, bind-eq-ok, if-eq-known, if-eq-ok, ok-injective,
  and-true, length, get_elem?, drop,
}
use robine.Flow.Ast.{Form, keyword}
use robine.Flow.Float.{F64}
use robine.Flow.View.{keyword_of}
use robine.Flow.Plan.{invalid_command}
use robine.Flow.Plan.Options.{
  Seen, CommandOptions, nothing_seen, is_none, timeout_of, confirmation_of, read_option,
  read_options, settle, command_options,
}
use robine.Flow.Check.{
  CheckDiagnostic, push_if, Capabilities, Flags, no_flags, entity_id, check_option, check_options,
  check_verb, check_end, check_known, check_target, is_switch_verb,
}

pub append-empty {ℓ} : {A : Type ℓ} (xs ys : List A) → xs ++ ys ≡ [] → (xs ≡ []) × (ys ≡ [])
append-empty [] ys h = (refl, h)
append-empty (x ∷ xs) ys h = cc

push_if-empty : (b : Bool) (d : CheckDiagnostic) → push_if b d ≡ [] → b ≡ false
push_if-empty true d h = cc
push_if-empty false d h = refl

-- A brightness that is set wants a light that can be dimmed.
abbrev pub IsLit : {F : Type 0} → Capabilities → Option F → Type 0
IsLit contains none = Unit
IsLit contains (some b) = contains "light.brightness" ≡ true

IsLit-capable :
    {F : Type 0} (contains : Capabilities) (o : Option F)
    → contains "light.brightness" ≡ true
    → IsLit contains o
IsLit-capable contains none h = tt
IsLit-capable contains (some b) h = h

check_option-capable :
    (contains : Capabilities) (flags : Flags) (v : Form) (path : String)
    → (check_option contains flags "brightness" v path).1 ≡ []
    → contains "light.brightness" ≡ true
unfolding check_option
check_option-capable contains flags v path h = elim (Bool-cases flags.brightness) [
  | inl e ↦ let h' = (rw e at h) in cc h'
  | inr e ↦
      let (first, _) = append-empty (push_if (not (contains "light.brightness")) _) _ (rw e at h) in
      elim (Bool-cases (contains "light.brightness")) [
        | inl e ↦ e
        | inr e ↦ let h' = (rw e at first) in cc h'
      ]
]

module _ {F : Type 0} (f : F64 F) (contains : Capabilities) where
  -- An option that compiles and has no diagnostics keeps the brightness supported.
  read_option-IsLit :
      (s t : Seen F) (flags : Flags) (key : String) (v : Form) (path : String)
      → read_option f s key v ≡ ok t
      → (check_option contains flags key v path).1 ≡ []
      → IsLit contains s.brightness
      → IsLit contains t.brightness
  unfolding read_option
  read_option-IsLit s t flags key v path e clean h =
      elim (if-eq-known (key == "brightness" && is_none s.brightness) e) [
        | inl (both, e) ↦
            let key-is = (eq_iff key "brightness").0 (and-true both).0 in
            IsLit-capable contains t.brightness (
              check_option-capable contains flags v path
                (subst (λ k. (check_option contains flags k v path).1 ≡ []) key-is clean))
        | inr (_, e) ↦ elim (if-eq-known (key == "confirm" && is_none s.confirmation) e) [
          | inl (_, e) ↦
              let (c, known, same) = bind-eq-ok (confirmation_of v) _ e in
              subst (λ (u : Seen F). IsLit contains u.brightness) (ok-injective same) h
          | inr (_, e) ↦
              let (c, known, same) =
                bind-eq-ok (timeout_of f v) _
                  (if-eq-ok (key == "timeout" && is_none s.timeout) invalid_command e).1 in
              subst (λ (u : Seen F). IsLit contains u.brightness) (ok-injective same) h
        ]
      ]

  read_options-IsLit :
      (s t : Seen F) (flags : Flags) (options : List Form) (path : String)
      → read_options f s options ≡ ok t
      → (check_options contains flags options path).2 ≡ []
      → IsLit contains s.brightness
      → IsLit contains t.brightness
  unfolding read_options check_options
  read_options-IsLit s t flags [] path e clean h =
      subst (λ (u : Seen F). IsLit contains u.brightness) (ok-injective e) h
  read_options-IsLit s t flags (keyword key ∷ value ∷ rest) path e clean h =
      let (u, first, others) = bind-eq-ok (read_option f s key value) _ e in
      let (pushed, more) =
        append-empty (check_option contains flags key value path).1
          (check_options contains (check_option contains flags key value path).0 rest path).2
          clean in
      read_options-IsLit u t (check_option contains flags key value path).0 rest path others more
        (read_option-IsLit s u flags key value path first pushed h)
  read_options-IsLit s t flags _ path e clean h = cc

  pub command_options-IsLit :
      (o : CommandOptions F) (options : List Form) (path : String)
      → command_options f options ≡ ok o
      → (check_options contains no_flags options path).2 ≡ []
      → IsLit contains o.brightness
  unfolding command_options
  command_options-IsLit o options path e clean =
      let (s, read, e₁) = bind-eq-ok (read_options f (nothing_seen F) options) _ e in
      let (c, _, same) = bind-eq-ok (settle f s s.confirmation) _ e₁ in
      subst (λ (o : CommandOptions F). IsLit contains o.brightness) (ok-injective same)
        (read_options-IsLit (nothing_seen F) s no_flags options path read clean tt)

  -- The capability that a verb wants
  pub IsSwitch-verb :
      (verb path : String)
      → check_verb contains (some verb) path ≡ []
      → (is_switch_verb (some verb) ≡ true) × (contains "switch" ≡ true)
  IsSwitch-verb verb path h = elim (Bool-cases (is_switch_verb (some verb))) [
    | inl e ↦ elim (Bool-cases (contains "switch")) [
      | inl c ↦ (e, c)
      | inr c ↦ let h' = (rw (e, c) at h) in cc h'
    ]
    | inr e ↦ let h' = (rw e at h) in cc h'
  ]

check_end-empty :
    (count : ℕ) (path : String) (r : Flags × Bool × List CheckDiagnostic)
    → check_end count path r ≡ []
    → r.2 ≡ []
check_end-empty count path (flags, left, pushed) h =
    (append-empty pushed _ (append-empty (pushed ++ _) _ h).0).0

module _ (capabilities_for : String → Option Capabilities) where
  -- A command without diagnostics names an entity that the catalog knows.
  abbrev pub IsKnown : List Form → String → Type 0
  IsKnown forms path =
      (entity : String) × (contains : Capabilities) × (entity_id (get_elem? forms 1) ≡ some entity)
      × (capabilities_for entity ≡ some contains)
      × (check_verb contains (keyword_of (get_elem? forms 2)) path ≡ [])
      × ((check_options contains no_flags (drop 3 forms) path).2 ≡ [])

  check_known-clean :
      (forms : List Form) (path : String) (o : Option Capabilities)
      → check_known capabilities_for forms path o ≡ []
      → (contains : Capabilities) × (o ≡ some contains)
        × (check_verb contains (keyword_of (get_elem? forms 2)) path ≡ [])
        × ((check_options contains no_flags (drop 3 forms) path).2 ≡ [])
  check_known-clean forms path none h = cc
  check_known-clean forms path (some contains) h =
      let options = check_options contains no_flags (drop 3 forms) path in
      let (verb, end) =
        append-empty (check_verb contains (keyword_of (get_elem? forms 2)) path)
          (check_end (length forms) path options) h in
      (contains, refl, verb, check_end-empty (length forms) path options end)

  pub check_target-clean :
      (forms : List Form) (path : String) (o : Option String)
      → entity_id (get_elem? forms 1) ≡ o
      → check_target capabilities_for forms path o ≡ []
      → IsKnown forms path
  check_target-clean forms path none e h = cc
  check_target-clean forms path (some entity) e h =
      let (contains, known, verb, options) =
        check_known-clean forms path (capabilities_for entity) h in
      (entity, contains, e, known, verb, options)
