-- ===== src/Application/Schedule.antt =====
-- crates/robine-application/src/lib.rs: schedules, their syntax and the key of an occurrence.
pub mod Bounds
mod Tests
use robine.Prelude.{
  ℕ, zero, suc, ◌+◌, String, ◌<>◌, decimal, Char, is, code, chars, Bool, true, false, Option, none,
  some, List, [], ◌∷◌, ◌++◌, ◌==◌, ◌&&◌, ◌||◌, not, ltb, eqb, if◌then◌else◌, length, get_elem?,
}
use robine.Flow.Ast.{
  FlowAst, Form, Forms, list, symbol, keyword, string, nil_forms, cons_forms, items, as_list,
  as_symbol, head_symbol, is_some_text,
}
use robine.Flow.View.{digits_to}

pub data Weekday : Type 0 where
  mon tue wed thu fri sat sun : Weekday

abbrev day_index : Weekday → ℕ
day_index mon = 0
day_index tue = 1
day_index wed = 2
day_index thu = 3
day_index fri = 4
day_index sat = 5
day_index sun = 6

abbrev pub same_day : Weekday → Weekday → Bool
same_day a b = eqb (day_index a) (day_index b)

-- `now.with_timezone(…)`: the parts that are read, the date as its text
pub record LocalTime : Type 0 where
  pub date : String
  pub hour : ℕ
  pub minute : ℕ
  pub weekday : Weekday

-- What `chrono_tz` does
pub record Zones (Z : Type 0) : Type 0 where
  pub parse_zone : String → Option Z
  pub zone_name : Z → String
  pub with_timezone : ℕ → Z → LocalTime

pub record Schedule (Z : Type 0) : Type 0 where
  pub at_text : String
  pub timezone : Z
  pub hour : ℕ
  pub minute : ℕ
  pub weekdays : Option (List Weekday)

abbrev weekday_named : String → Option Weekday
weekday_named value =
    if value == "mon" || value == "monday"
    then some mon
    else if value == "tue" || value == "tuesday"
    then some tue
    else if value == "wed" || value == "wednesday"
    then some wed
    else if value == "thu" || value == "thursday"
    then some thu
    else if value == "fri" || value == "friday"
    then some fri
    else if value == "sat" || value == "saturday"
    then some sat
    else if value == "sun" || value == "sunday"
    then some sun
    else none

unfoldable pub parse_weekday : Form → Option Weekday
parse_weekday (symbol value) = weekday_named value
parse_weekday (keyword value) = weekday_named value
parse_weekday (string value) = weekday_named value
parse_weekday _ = none

abbrev below : ℕ → Option ℕ → Option ℕ
below bound none = none
below bound (some n) = if ltb n bound then some n else none

-- `str::parse::<u32>().ok()`, which takes a leading plus sign
abbrev pub parse_u32 : List Char → Option ℕ
parse_u32 [] = none
parse_u32 (c ∷ []) = below 4294967296 (digits_to 0 (c ∷ []))
parse_u32 (c ∷ s) =
    if is c b'+' then below 4294967296 (digits_to 0 s) else below 4294967296 (digits_to 0 (c ∷ s))

-- `split_once(':')`
abbrev pub split_once : List Char → Option (List Char × List Char)
split_once [] = none
split_once (c ∷ s) =
    let more = split_once s in if is c b':' then some ([], s) else with_first c more
  where
    with_first : Char → Option (List Char × List Char) → Option (List Char × List Char)
    with_first c none = none
    with_first c (some (before, after)) = some (c ∷ before, after)

abbrev pub clock_time : Option ℕ → Option ℕ → Option (ℕ × ℕ)
clock_time (some hour) (some minute) =
    if ltb hour 24 && ltb minute 60 then some (hour, minute) else none
clock_time _ _ = none

-- A part that is two bytes long and parses is two characters long.
abbrev pub time_parts : Option (List Char × List Char) → Option (ℕ × ℕ)
time_parts none = none
time_parts (some (hour, minute)) =
    if eqb (length hour) 2 && eqb (length minute) 2
    then clock_time (parse_u32 hour) (parse_u32 minute)
    else none

unfoldable pub parse_schedule_time : String → Option (ℕ × ℕ)
parse_schedule_time value = time_parts (split_once (chars value))

abbrev pub has_day : List Weekday → Weekday → Bool
has_day [] day = false
has_day (d ∷ days) day = same_day d day || has_day days day

-- the loop over the days, behind those that are parsed
abbrev pub add_day :
    (List Weekday → Option (List Weekday)) → List Weekday → Option Weekday → Option (List Weekday)
add_day more parsed none = none
add_day more parsed (some day) = if has_day parsed day then none else more (parsed ++ day ∷ [])

unfoldable pub parse_days : List Weekday → List Form → Option (List Weekday)
parse_days parsed [] = some parsed
parse_days parsed (value ∷ values) = add_day (λ p. parse_days p values) parsed (parse_weekday value)

abbrev pub parse_weekdays : Option (List Form) → Option (List Weekday)
parse_weekdays none = none
parse_weekdays (some values) =
    if eqb (length values) 0 || ltb 7 (length values) then none else parse_days [] values

-- `?` on an option
abbrev pub and_then : {A B : Type 0} → Option A → (A → Option B) → Option B
and_then none next = none
and_then (some a) next = next a

abbrev pub is_absent : {A : Type 0} → Option A → Bool
is_absent none = true
is_absent (some _) = false

abbrev pub string_value : Form → Option String
string_value (string value) = some value
string_value _ = none

-- what the loop over the pairs keeps
pub record ScheduleParts (Z : Type 0) : Type 0 where
  pub at_text : Option String
  pub timezone : Option Z
  pub weekdays : Option (List Weekday)

module _ {Z : Type 0} (z : Zones Z) where
  -- the loop over `chunks(2)`
  unfoldable pub read_pairs : ScheduleParts Z → List Form → Option (ScheduleParts Z)
  read_pairs p [] = some p
  read_pairs p (keyword key ∷ value ∷ rest) =
      if key == "at" && is_absent p.at_text
      then and_then (string_value value) (λ v. read_pairs (record p { at_text = some v }) rest)
      else if key == "timezone" && is_absent p.timezone
      then and_then (string_value value)
          (λ v. read_pairs (record p { timezone = z.parse_zone v }) rest)
      else if key == "weekdays" && is_absent p.weekdays
      then and_then (parse_weekdays (as_list value))
          (λ days. read_pairs (record p { weekdays = some days }) rest)
      else none
  read_pairs p _ = none

  -- what follows the loop
  abbrev pub schedule_of : ScheduleParts Z → Option (Schedule Z)
  schedule_of p = and_then p.at_text (λ at. and_then (parse_schedule_time at) (λ time.
      and_then p.timezone (λ zone. some (record {
        at_text = at;
        timezone = zone;
        hour = time.0;
        minute = time.1;
        weekdays = p.weekdays;
      }))))

  -- `parse_schedule`, at the forms behind the head of a list
  unfoldable pub parse_schedule : List Form → Option (Schedule Z)
  parse_schedule pairs =
      and_then (read_pairs (record { at_text = none; timezone = none; weekdays = none }) pairs)
        schedule_of

  abbrev on_day : Option (List Weekday) → Weekday → Bool
  on_day none day = true
  on_day (some days) day = has_day days day

  abbrev branch_text : String → String
  branch_text branch = if branch == "" then "" else ":" <> branch

  -- the key of the occurrence of one schedule at an instant, if it occurs then
  unfoldable pub occurrence_key : ℕ → String → Schedule Z → Option String
  occurrence_key now branch s =
      let local = z.with_timezone now s.timezone in
      if eqb local.hour s.hour && eqb local.minute s.minute && on_day s.weekdays local.weekday
      then some (
          "schedule"
          <> branch_text branch
          <> ":"
          <> z.zone_name s.timezone
          <> ":"
          <> local.date
          <> ":"
          <> s.at_text)
      else none

  abbrev first_of : Option String → Option String → Option String
  first_of none other = other
  first_of (some key) other = some key

  unfoldable mutual
    unfolding parse_schedule occurrence_key

    pub schedule_trigger_form_key : Form → ℕ → String → Option String
    schedule_trigger_form_key (list fs) now branch = trigger_key fs now branch
    schedule_trigger_form_key _ now branch = none

    pub trigger_key : Forms → ℕ → String → Option String
    trigger_key nil_forms now branch = none
    trigger_key (cons_forms head rest) now branch =
        let any = branches_key rest 0 now branch in
        if is_some_text (as_symbol head) "any-of"
        then any
        else (if is_some_text (as_symbol head) "schedule"
            then and_then (parse_schedule (items rest)) (occurrence_key now branch)
            else none)

    pub branches_key : Forms → ℕ → ℕ → String → Option String
    branches_key nil_forms index now branch = none
    branches_key (cons_forms trigger rest) index now branch =
        first_of (schedule_trigger_form_key trigger now (branch <> "." <> decimal index))
          (branches_key rest (index + 1) now branch)

  -- `find_map` over the sections: the form behind an `on` that has one
  abbrev on_form : List Form → Option Form
  on_form [] = none
  on_form (list fs ∷ rest) =
      let more = on_form rest in
      if is_some_text (head_symbol (items fs)) "on"
      then form_or (get_elem? (items fs) 1) more
      else more
    where
      form_or : Option Form → Option Form → Option Form
      form_or none other = other
      form_or (some form) other = some form
  on_form (_ ∷ rest) = on_form rest

  unfoldable pub schedule_trigger_key : FlowAst → ℕ → Option String
  schedule_trigger_key ast now =
      and_then (as_list ast.root)
        (λ forms. and_then (on_form forms) (λ trigger. schedule_trigger_form_key trigger now ""))
