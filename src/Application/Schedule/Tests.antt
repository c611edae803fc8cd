-- ===== src/Application/Schedule/Tests.antt =====
-- The schedule of the application's own test, 09:15 in Paris, on a weekday.
use robine.Prelude.{◌≡◌, refl, String, none, some, List, [], ◌∷◌, ◌==◌, ltb, if◌then◌else◌, chars}
use robine.Flow.Ast.{FlowAst, Form, list, symbol, keyword, string, forms}
use robine.Flow.View.{digits_to}
use robine.Application.Schedule.{
  Weekday, Zones, Schedule, parse_weekday, parse_days, parse_schedule_time, read_pairs,
  parse_schedule, schedule_trigger_form_key, schedule_trigger_key,
}
use robine.Application.Schedule.Bounds.{IsSchedule, parse_schedule-IsSchedule}

-- One zone; its clock reads 09:15 up to the instant 10, and 09:16 after it.
abbrev zones : Zones String
zones = record {
  parse_zone = λ name. if name == "Europe/Paris" then some name else none;
  zone_name = λ name. name;
  with_timezone = λ now _. record {
    date = "2026-01-15";
    hour = 9;
    minute = if ltb now 10 then 15 else 16;
    weekday = Weekday.thu;
  };
}

abbrev pairs : List Form
pairs =
    keyword "at"
    ∷ string "09:15"
    ∷ keyword "timezone"
    ∷ string "Europe/Paris"
    ∷ keyword "weekdays"
    ∷ list (forms (symbol "mon" ∷ symbol "thursday" ∷ []))
    ∷ []

abbrev morning : Schedule String
morning = record {
  at_text = "09:15";
  timezone = "Europe/Paris";
  hour = 9;
  minute = 15;
  weekdays = some (Weekday.mon ∷ Weekday.thu ∷ []);
}

abbrev document : FlowAst
document = record {
  dsl = "robine.flow";
  dsl_version = 1;
  root = list (
      forms (
        symbol "flow"
        ∷ list (forms (symbol "on" ∷ list (forms (symbol "schedule" ∷ pairs)) ∷ []))
        ∷ []));
}

occurs : schedule_trigger_key zones document 5 ≡ some "schedule:Europe/Paris:2026-01-15:09:15"
unfolding schedule_trigger_key schedule_trigger_form_key read_pairs parse_days parse_weekday
    parse_schedule_time chars digits_to
occurs = refl

occurs_not : schedule_trigger_key zones document 60 ≡ none
unfolding schedule_trigger_key schedule_trigger_form_key read_pairs parse_days parse_weekday
    parse_schedule_time chars digits_to
occurs_not = refl

parse_schedule-IsSchedule_example : IsSchedule zones morning
unfolding parse_schedule read_pairs parse_days parse_weekday parse_schedule_time chars digits_to
parse_schedule-IsSchedule_example = parse_schedule-IsSchedule zones pairs morning refl
