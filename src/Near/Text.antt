-- ===== src/Near/Text.antt =====
-- Strings as the numbers of their characters, where a contract reads them: the tests of `str` and
-- `char` that the contracts use.
use i_am_human.Base.{ℕ, ◌+◌, Bool, ◌&&◌, ◌||◌, List, [], ◌∷◌, ◌++◌, leb, if◌then◌else◌}
use i_am_human.Near.Keys.{list_eq}

abbrev pub Chars : Type 0
Chars = List ℕ

-- `str::ends_with`
abbrev pub ends_with : Chars → Chars → Bool
ends_with [] suffix = list_eq [] suffix
ends_with (c ∷ cs) suffix = list_eq (c ∷ cs) suffix || ends_with cs suffix

-- `char::is_ascii_hexdigit`
abbrev pub is_ascii_hexdigit : ℕ → Bool
is_ascii_hexdigit c = leb 48 c && leb c 57 || (leb 65 c && leb c 70 || leb 97 c && leb c 102)

-- `char::is_ascii_alphanumeric`
abbrev pub is_ascii_alphanumeric : ℕ → Bool
is_ascii_alphanumeric c = leb 48 c && leb c 57 || (leb 65 c && leb c 90 || leb 97 c && leb c 122)

-- One character of `str::to_lowercase`; `other` is Unicode's table for the characters that are not
-- ASCII.
abbrev pub lowercase : (ℕ → Chars) → ℕ → Chars
lowercase other c = if leb 128 c then other c else (if leb 65 c && leb c 90 then c + 32 else c) ∷ []

-- `str::to_lowercase`
abbrev pub to_lowercase : (ℕ → Chars) → Chars → Chars
to_lowercase other [] = []
to_lowercase other (c ∷ cs) = lowercase other c ++ to_lowercase other cs
