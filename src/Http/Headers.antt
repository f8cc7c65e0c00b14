-- ===== src/Http/Headers.antt =====
-- src/io/net/http/response.cpp: class Headers, matched without regard to case.
use samurai.Prelude.{
  ℕ, suc, Bool, true, false, Option, none, some, [], ◌∷◌, ◌++◌, if◌then◌else◌, Bytes,
}
use samurai.Text.{iequals}
use samurai.Http.{Headers}

unfoldable pub add : Headers → Bytes → Bytes → Headers
add fields name value = fields ++ (name, value) ∷ []

-- The loop of `set` and `remove`, which erases the fields with the name.
unfoldable pub erase : Headers → Bytes → Headers
erase [] name = []
erase ((key, value) ∷ fields) name =
    if iequals key name then erase fields name else (key, value) ∷ erase fields name

unfoldable pub set : Headers → Bytes → Bytes → Headers
set fields name value = add (erase fields name) name value

unfoldable pub count : Headers → Bytes → ℕ
count [] name = 0
count ((key, value) ∷ fields) name =
    if iequals key name then suc (count fields name) else count fields name

-- remove: what is left, and how many fields were dropped.
unfoldable pub remove : Headers → Bytes → Headers × ℕ
remove fields name = (erase fields name, count fields name)

unfoldable pub get : Headers → Bytes → Option Bytes
get [] name = none
get ((key, value) ∷ fields) name = if iequals key name then some value else get fields name

unfoldable pub has : Headers → Bytes → Bool
has fields name = elim (get fields name) [ none ↦ false | some _ ↦ true ]
