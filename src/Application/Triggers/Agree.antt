-- ===== src/Application/Triggers/Agree.antt =====
-- crates/robine-application/src/lib.rs: a form as a trigger and as an await.
use robine.Prelude.{
  all, drop, bind-eq-ok, if-eq-ok, if-eq, if-eq-known, sym, ◌∙◌, ok_or-eq-ok, ok-injective, ok_or,
  subst, and-true, ◌≡◌, refl, String, Bool, true, false, Option, none, some, List, [], ◌∷◌, ◌==◌,
  ◌||◌, eq_iff, inl, inr, ok,
}
use robine.Flow.View.{non_empty, is_empty_text}
use robine.Domain.{StateValue}
use robine.Domain.Model.{StateProperty}
use robine.Flow.Ast.{
  Form, Forms, list, symbol, string, bool, keyword, number, nil_forms, cons_forms, items,
}
use robine.Flow.Float.{F64}
use robine.Flow.Plan.{AwaitTrigger, AwaitTriggers, AwaitValue, invalid_await, any_of}
use robine.Flow.Plan.Await.{
  Watched, is_list, entity_in, some_trigger, compile_members, property_of, await_value, watch,
  compile_state_changed, compile_await_trigger,
}
use robine.Application.Triggers.{
  names_entity, any_matches_state, state_members_match, is_string, form_matches_state_value,
  pairs_match, expects, state_trigger_form_matches, await_trigger_matches_state,
}

module _ {F : Type 0} (f : F64 F) where
  open f use {parse_f64}

  expects-number :
      (literal unit : String) (expected : AwaitValue F) (y : F)
      → await_value f (number literal (some unit)) ≡ ok expected
      → form_matches_state_value f (number literal (some unit)) (StateValue.percentage y) ≡ true
      → expects f (some expected) (StateValue.percentage y) ≡ true
  unfolding await_value form_matches_state_value
  expects-number literal unit expected y h k =
      let (percent, compiled) = if-eq-ok (unit == "%") invalid_await h in
      let (x, known, same) = bind-eq-ok (ok_or invalid_await (parse_f64 literal)) _ compiled in
      let close = (rw (percent, ok_or-eq-ok (parse_f64 literal) invalid_await known) at k) in
      subst (λ v. expects f (some v) (StateValue.percentage y) ≡ true) (ok-injective same) close

  -- A value that compiles expects what the form of it matches.
  await_value-expects :
      (form : Form) (expected : AwaitValue F) (value : StateValue F)
      → await_value f form ≡ ok expected
      → form_matches_state_value f form value ≡ true
      → expects f (some expected) value ≡ true
  unfolding await_value form_matches_state_value
  await_value-expects (bool a) expected (StateValue.bool b) h k =
      subst (λ v. expects f (some v) (StateValue.bool b) ≡ true) (ok-injective h) k
  await_value-expects (string a) expected (StateValue.text b) h k =
      subst (λ v. expects f (some v) (StateValue.text b) ≡ true) (ok-injective h) k
  await_value-expects (number literal (some unit)) expected (StateValue.percentage y) h k =
      expects-number literal unit expected y h k
  await_value-expects form expected value h k = cc k

  -- What the loop keeps agrees with a state.
  record Agrees (state : StateProperty F) (w : Watched F) : Type 0 where
    property_agrees :
        (property : String) → w.property ≡ some property → (property == state.key) ≡ true
    value_agrees : expects f w.to state.value ≡ true

  property-Agrees :
      (state : StateProperty F) (w : Watched F) (value : Form) (property : String)
      → Agrees state w
      → property_of f value ≡ ok property
      → is_string value state.key ≡ true
      → Agrees state (record w { property = some property })
  property-Agrees state w (string text) property a h k = elim (if-eq (is_empty_text text) h) [
    | inl clash ↦ cc clash
    | inr same ↦ record {
      property_agrees = λ p e. subst (λ q. (q == state.key) ≡ true) (ok-injective same ∙ cc e) k;
      value_agrees = a.value_agrees;
    }
  ]
  property-Agrees state w value property a h k = cc k

  watch-last : (w : Watched F) (last : Form) → watch f w (last ∷ []) ≡ ok w
  unfolding watch
  watch-last w (keyword key) = refl
  watch-last w last = refl

  watch-Agrees :
      (state : StateProperty F) (w w' : Watched F) (pairs : List Form)
      → Agrees state w
      → watch f w pairs ≡ ok w'
      → pairs_match f pairs state ≡ true
      → Agrees state w'
  unfolding watch
  watch-Agrees state w w' [] a h k = subst (Agrees state) (ok-injective h) a
  watch-Agrees state w w' (last ∷ []) a h k =
      subst (Agrees state) (ok-injective (sym (watch-last w last) ∙ h)) a
  watch-Agrees state w w' (keyword key ∷ value ∷ rest) a h k =
      elim (if-eq-known (key == "property") h) [
        | inl (is, compiled) ↦
            let (p, read, more) = bind-eq-ok (property_of f value) _ compiled in
            let (here, there) = and-true (rw is at k) in
            watch-Agrees state (record w { property = some p }) w' rest
              (property-Agrees state w value p a read here) more there
        | inr (differs, other) ↦
            let (is, compiled) = if-eq-ok (key == "to") invalid_await other in
            let (v, read, more) = bind-eq-ok (await_value f value) _ compiled in
            let (here, there) = and-true (rw (differs, is) at k) in
            watch-Agrees state (record w { to = some v }) w' rest
              (record {
                property_agrees = a.property_agrees;
                value_agrees = await_value-expects value v state.value read here;
              })
              more there
      ]
  watch-Agrees state w w' pairs a h k = cc h

  changed-Agrees :
      (state : StateProperty F) (head : Form) (rest : List Form) (t : AwaitTrigger F)
      → compile_state_changed f (head ∷ rest) ≡ ok t
      → names_entity f (entity_in (head ∷ rest)) state.entity_id ≡ true
      → pairs_match f (drop 1 rest) state ≡ true
      → await_trigger_matches_state f t state ≡ true
  unfolding compile_state_changed await_trigger_matches_state
  changed-Agrees state head rest t h here there =
      let (entity, named, watched) =
        bind-eq-ok (ok_or invalid_await (non_empty (entity_in (head ∷ rest)))) _ h in
      let (w, kept, compiled) =
        bind-eq-ok (watch f (record { property = none; to = none }) (drop 2 (head ∷ rest))) _
          watched in
      let (property, known, same) = bind-eq-ok (ok_or invalid_await w.property) _ compiled in
      let a =
        watch-Agrees state (record { property = none; to = none }) w (drop 1 rest)
          (record { property_agrees = λ p e. cc e; value_agrees = refl }) kept there in
      subst (λ t. await_trigger_matches_state f t state ≡ true) (ok-injective same)
        (rw
          (
            named_entity (entity_in (head ∷ rest)) entity (ok_or-eq-ok _ invalid_await named) here,
            a.property_agrees property (ok_or-eq-ok w.property invalid_await known),
            a.value_agrees,
          )
          refl)
    where
      named_entity :
          (o : Option String) (entity : String)
          → non_empty o ≡ some entity
          → names_entity f o state.entity_id ≡ true
          → (entity == state.entity_id) ≡ true
      named_entity none entity e k = cc k
      named_entity (some id) entity e k = elim (if-eq (is_empty_text id) e) [
        | inl clash ↦ cc clash
        | inr same ↦ subst (λ i. (i == state.entity_id) ≡ true) (cc same) k
      ]

  some_trigger-any_of :
      (ts : AwaitTriggers F) (t : AwaitTrigger F) → some_trigger ts ≡ ok t → any_of ts ≡ t
  some_trigger-any_of AwaitTriggers.no_triggers t h = cc h
  some_trigger-any_of (AwaitTriggers.cons_triggers a b) t h = cc h

  event-state-changed :
      {A : Type 0} (name : String) → (name == "event") ≡ true → (name == "state-changed") ≡ true → A
  event-state-changed name h k =
      let clash = sym ((eq_iff name "event").0 h) ∙ (eq_iff name "state-changed").0 k in cc clash

  or_mono :
      {a b c d : Bool}
      → (a ≡ true → c ≡ true)
      → (b ≡ true → d ≡ true)
      → (a || b) ≡ true
      → (c || d) ≡ true
  or_mono {a = true} {c = c} h k e = rw (h refl) refl
  or_mono {a = false} {c = true} h k e = refl
  or_mono {a = false} {c = false} h k e = k e

  mutual
    unfolding compile_await_trigger state_trigger_form_matches await_trigger_matches_state

    trigger-matches :
        (state : StateProperty F) (trigger : Forms) (t : AwaitTrigger F)
        → compile_await_trigger f trigger ≡ ok t
        → state_trigger_form_matches f trigger state ≡ true
        → await_trigger_matches_state f t state ≡ true
    trigger-matches state nil_forms t h k = cc k
    trigger-matches state (cons_forms (symbol name) rest) t h k =
        elim (if-eq-known (name == "any-of") h) [
          | inl (is, any) ↦
              let (_, members) = if-eq-ok (all is_list (items rest)) invalid_await any in
              let (ts, compiled, same) = bind-eq-ok (compile_members f rest) some_trigger members in
              let matched = (rw is at k) in
              subst (λ t. await_trigger_matches_state f t state ≡ true)
                (some_trigger-any_of ts t same) (members-matches state rest ts compiled matched)
          | inr (single, named) ↦
              let (known, matched) = and-true (rw single at k) in
              let (changed, entity) = and-true known in
              elim (if-eq-known (name == "event") named) [
                | inl (is, _) ↦ event-state-changed name is changed
                | inr (_, last) ↦
                    changed-Agrees state (symbol name) (items rest) t
                      ((if-eq-ok (name == "state-changed") invalid_await last).1) entity matched
              ]
        ]
    trigger-matches state (cons_forms head rest) t h k = cc h

    members-matches :
        (state : StateProperty F) (members : Forms) (ts : AwaitTriggers F)
        → compile_members f members ≡ ok ts
        → state_members_match f members state ≡ true
        → any_matches_state f ts state ≡ true
    members-matches state nil_forms ts h k = cc k
    members-matches state (cons_forms (list trigger) rest) ts h k =
        let (t, compiled, more) = bind-eq-ok (compile_await_trigger f trigger) _ h in
        let (others, rest_compiled, same) = bind-eq-ok (compile_members f rest) _ more in
        subst (λ ts. any_matches_state f ts state ≡ true) (ok-injective same)
          (or_mono (trigger-matches state trigger t compiled)
            (members-matches state rest others rest_compiled) k)
    members-matches state (cons_forms form rest) ts h k = cc h

  -- If a trigger form compiles to what an `await` waits for, and as the trigger of a flow it matches a
  -- state, then what it compiled to matches that state: a state that starts a flow also resumes a run
  -- that awaits the same form.
  pub compile_await_trigger-await_trigger_matches_state :
      (state : StateProperty F) (trigger : Forms) (t : AwaitTrigger F)
      → compile_await_trigger f trigger ≡ ok t
      → state_trigger_form_matches f trigger state ≡ true
      → await_trigger_matches_state f t state ≡ true
  compile_await_trigger-await_trigger_matches_state = trigger-matches
