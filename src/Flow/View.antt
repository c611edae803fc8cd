-- ===== src/Flow/View.antt =====
-- The views of forms that the flow crates share: `.get(i)`, `.and_then(Form::list)` and the arms of
-- their matches on one form.
use robine.Prelude.{
  ℕ, String, Char, Bool, Option, none, some, List, [], ◌∷◌, ◌==◌, ◌&&◌, ◌*◌, ◌+◌, ◌-◌, code, is,
  leb, if◌then◌else◌, chars, get_elem?,
}
use robine.Flow.Ast.{Form, list, keyword, string, items, as_list, head_symbol, is_some_text}

abbrev pub list_of : Option Form → Option (List Form)
list_of none = none
list_of (some f) = as_list f

abbrev pub string_of : Option Form → Option String
string_of (some (string value)) = some value
string_of _ = none

abbrev pub keyword_of : Option Form → Option String
keyword_of (some (keyword value)) = some value
keyword_of _ = none

abbrev pub get_in : Option (List Form) → ℕ → Option Form
get_in none i = none
get_in (some forms) i = get_elem? forms i

abbrev pub is_empty_text : String → Bool
is_empty_text s = s == ""

-- `.filter(|value| !value.is_empty())`
abbrev pub non_empty : Option String → Option String
non_empty none = none
non_empty (some s) = if is_empty_text s then none else some s

-- the first form that is a list headed by the name
unfoldable pub find_section : String → List Form → Option (List Form)
find_section name [] = none
find_section name (list fs ∷ rest) =
    if is_some_text (head_symbol (items fs)) name then some (items fs) else find_section name rest
find_section name (_ ∷ rest) = find_section name rest

abbrev pub tail_of : List Form → List Form
tail_of [] = []
tail_of (_ ∷ fs) = fs

unfoldable pub digits_to : ℕ → List Char → Option ℕ
digits_to n [] = some n
digits_to n (c ∷ s) =
    let more = digits_to (n * 10 + (code c - 48)) s in
    if leb b'0' (code c) && leb (code c) b'9' then more else none

abbrev small : Option ℕ → Option ℕ
small none = none
small (some n) = if leb n 255 then some n else none

abbrev unsigned : List Char → Option ℕ
unsigned [] = none
unsigned (c ∷ []) = small (digits_to 0 (c ∷ []))
unsigned (c ∷ s) = if is c b'+' then small (digits_to 0 s) else small (digits_to 0 (c ∷ s))

-- `str::parse::<u8>().ok()`, which takes a leading plus sign
unfoldable pub parse_u8 : String → Option ℕ
unfolding digits_to chars
parse_u8 value = unsigned (chars value)
