-- ===== src/Application/Schedule/Bounds.antt =====
-- crates/robine-application/src/lib.rs: the schedules that `parse_schedule` accepts.
use robine.Prelude.{
  ℕ, ◌+◌, ◌<◌, ◌≤◌, ◌≡◌, refl, String, chars, false, Option, none, some, List, [], ◌∷◌, ◌++◌, ◌==◌,
  ◌&&◌, ◌||◌, ltb, eqb, length, length-append, arith, if-eq-known, inl, inr, subst, Char,
}
use robine.Flow.Ast.{Form, keyword, as_list}
use robine.Application.Schedule.{
  Weekday, add_day, split_once, is_absent, string_value, has_day, same_day, parse_weekday,
  parse_days, parse_weekdays, clock_time, time_parts, parse_u32, parse_schedule_time, and_then,
  ScheduleParts, Zones, Schedule, read_pairs, schedule_of, parse_schedule,
}

-- No day is in a list twice.
abbrev pub AreDistinctDays : List Weekday → Type 0
AreDistinctDays [] = Unit
AreDistinctDays (d ∷ days) = (has_day days d ≡ false) × AreDistinctDays days

pub record IsClockTime (hour minute : ℕ) : Type 0 where
  pub hour_bound : hour < 24
  pub minute_bound : minute < 60

-- One to seven days, none of them twice
pub record AreWeekdays (days : List Weekday) : Type 0 where
  pub some_day : 1 ≤ length days
  pub most_days : length days ≤ 7
  pub distinct : AreDistinctDays days

abbrev pub AreOptionalWeekdays : Option (List Weekday) → Type 0
AreOptionalWeekdays none = Unit
AreOptionalWeekdays (some days) = AreWeekdays days

and_then-eq-some :
    {A B : Type 0} (o : Option A) (next : A → Option B) {b : B}
    → and_then o next ≡ some b
    → (a : A) × (o ≡ some a) × (next a ≡ some b)
and_then-eq-some none next h = cc h
and_then-eq-some (some a) next h = (a, refl, h)

clock_time-IsClockTime :
    (a b : Option ℕ) (hour minute : ℕ)
    → clock_time a b ≡ some (hour, minute)
    → IsClockTime hour minute
clock_time-IsClockTime (some a) (some b) hour minute h =
    elim (if-eq-known (ltb a 24 && ltb b 60) h) [
      | inl (bounds, same) ↦
          let first : a ≡ hour = cc same in
          let second : b ≡ minute = cc same in
          record {
            hour_bound = ground (arith, first, bounds);
            minute_bound = ground (arith, second, bounds);
          }
      | inr (_, clash) ↦ cc clash
    ]
clock_time-IsClockTime a b hour minute h = cc h

time_parts-IsClockTime :
    (parts : Option (List Char × List Char)) (hour minute : ℕ)
    → time_parts parts ≡ some (hour, minute)
    → IsClockTime hour minute
time_parts-IsClockTime none hour minute h = cc h
time_parts-IsClockTime (some (a, b)) hour minute h =
    elim (if-eq-known (eqb (length a) 2 && eqb (length b) 2) h) [
      | inl (_, same) ↦ clock_time-IsClockTime (parse_u32 a) (parse_u32 b) hour minute same
      | inr (_, clash) ↦ cc clash
    ]

pub parse_schedule_time-IsClockTime :
    (value : String) (hour minute : ℕ)
    → parse_schedule_time value ≡ some (hour, minute)
    → IsClockTime hour minute
unfolding parse_schedule_time
parse_schedule_time-IsClockTime value hour minute h =
    time_parts-IsClockTime (split_once (chars value)) hour minute h

has_day-append :
    (days : List Weekday) (day d : Weekday)
    → has_day days d ≡ false
    → same_day d day ≡ false
    → has_day (days ++ day ∷ []) d ≡ false
has_day-append [] day d h k = ground (arith, k)
has_day-append (e ∷ days) day d h k = ground (arith, has_day-append days day d, h, k)

append-AreDistinctDays :
    (days : List Weekday) (day : Weekday)
    → AreDistinctDays days
    → has_day days day ≡ false
    → AreDistinctDays (days ++ day ∷ [])
append-AreDistinctDays [] day h k = (refl, tt)
append-AreDistinctDays (d ∷ days) day h k = (
  has_day-append days day d h.0 (ground (arith, k)),
  append-AreDistinctDays days day h.1 (ground (arith, k)),
)

pub record Parsed (parsed : List Weekday) (values : List Form) (days : List Weekday) : Type 0 where
  count : length days ≡ length parsed + length values
  different : AreDistinctDays days

add_day-eq-some :
    (more : List Weekday → Option (List Weekday)) (parsed days : List Weekday) (o : Option Weekday)
    → add_day more parsed o ≡ some days
    → (day : Weekday) × (has_day parsed day ≡ false) × (more (parsed ++ day ∷ []) ≡ some days)
add_day-eq-some more parsed days none h = cc h
add_day-eq-some more parsed days (some day) h = elim (if-eq-known (has_day parsed day) h) [
  | inl (_, clash) ↦ cc clash
  | inr (new, kept) ↦ (day, new, kept)
]

parse_days-Parsed :
    (parsed : List Weekday) (values : List Form) (days : List Weekday)
    → AreDistinctDays parsed
    → parse_days parsed values ≡ some days
    → Parsed parsed values days
unfolding parse_days
parse_days-Parsed parsed [] days d h =
    let same : parsed ≡ days = cc h in
    subst (Parsed parsed []) same (record { count = omega arith; different = d })
parse_days-Parsed parsed (value ∷ values) days d h =
    let (day, new, kept) =
      add_day-eq-some (λ p. parse_days p values) parsed days (parse_weekday value) h in
    let rest =
      parse_days-Parsed (parsed ++ day ∷ []) values days (append-AreDistinctDays parsed day d new)
        kept in
    record {
      count = omega (arith, rest.count, length-append parsed (day ∷ []));
      different = rest.different;
    }

parse_weekdays-AreWeekdays :
    (o : Option (List Form)) (days : List Weekday) → parse_weekdays o ≡ some days → AreWeekdays days
parse_weekdays-AreWeekdays none days h = cc h
parse_weekdays-AreWeekdays (some values) days h =
    elim (if-eq-known (eqb (length values) 0 || ltb 7 (length values)) h) [
      | inl (_, clash) ↦ cc clash
      | inr (bounds, parsed) ↦
          let all_days = parse_days-Parsed [] values days tt parsed in
          record {
            some_day = ground (arith, all_days.count, bounds);
            most_days = ground (arith, all_days.count, bounds);
            distinct = all_days.different;
          }
    ]

module _ {Z : Type 0} (z : Zones Z) where
  read_pairs-AreOptionalWeekdays :
      (p q : ScheduleParts Z) (pairs : List Form)
      → AreOptionalWeekdays p.weekdays
      → read_pairs z p pairs ≡ some q
      → AreOptionalWeekdays q.weekdays
  unfolding read_pairs
  read_pairs-AreOptionalWeekdays p q [] d h =
      let same : p ≡ q = cc h in subst (λ r. AreOptionalWeekdays r.weekdays) same d
  read_pairs-AreOptionalWeekdays p q (keyword key ∷ value ∷ rest) d h =
      elim (if-eq-known (key == "at" && is_absent p.at_text) h) [
        | inl (_, more) ↦
            let (v, _, next) = and_then-eq-some (string_value value) _ more in
            read_pairs-AreOptionalWeekdays (record p { at_text = some v }) q rest d next
        | inr (_, other) ↦ elim (if-eq-known (key == "timezone" && is_absent p.timezone) other) [
          | inl (_, more) ↦
              let (v, _, next) = and_then-eq-some (string_value value) _ more in
              read_pairs-AreOptionalWeekdays (record p { timezone = z.parse_zone v }) q rest d next
          | inr (_, last) ↦ elim (if-eq-known (key == "weekdays" && is_absent p.weekdays) last) [
            | inl (_, more) ↦
                let (days, read, next) = and_then-eq-some (parse_weekdays (as_list value)) _ more in
                read_pairs-AreOptionalWeekdays (record p { weekdays = some days }) q rest
                  (parse_weekdays-AreWeekdays (as_list value) days read) next
            | inr (_, clash) ↦ cc clash
          ]
        ]
      ]
  read_pairs-AreOptionalWeekdays p q pairs d h = cc h

  -- A schedule that can occur
  pub record IsSchedule (s : Schedule Z) : Type 0 where
    pub time_bounds : IsClockTime s.hour s.minute
    pub time_read : parse_schedule_time s.at_text ≡ some (s.hour, s.minute)
    pub days : AreOptionalWeekdays s.weekdays

  -- A schedule that is accepted has an hour below 24 and a minute below 60, those of its text, and if it
  -- names days, it names one to seven, none of them twice.
  pub parse_schedule-IsSchedule :
      (pairs : List Form) (s : Schedule Z) → parse_schedule z pairs ≡ some s → IsSchedule s
  unfolding parse_schedule
  parse_schedule-IsSchedule pairs s h =
      let (p, read, made) =
        and_then-eq-some
          (read_pairs z (record { at_text = none; timezone = none; weekdays = none }) pairs)
          (schedule_of z) h in
      let (at, _, timed) = and_then-eq-some p.at_text _ made in
      let (time, known, placed) = and_then-eq-some (parse_schedule_time at) _ timed in
      let (zone, _, same) = and_then-eq-some p.timezone _ placed in
      let found : Schedule Z = record {
        at_text = at;
        timezone = zone;
        hour = time.0;
        minute = time.1;
        weekdays = p.weekdays;
      } in
      let equal : found ≡ s = cc same in
      subst IsSchedule equal (record {
        time_bounds = parse_schedule_time-IsClockTime at time.0 time.1 known;
        time_read = known;
        days =
            read_pairs-AreOptionalWeekdays
              (record { at_text = none; timezone = none; weekdays = none }) p pairs tt read;
      })
