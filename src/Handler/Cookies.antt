-- ===== src/Handler/Cookies.antt =====
-- Which cookies a response sets.
use kite_mcp_oauth.Prelude.{
  Option, none, some, eq_iff, if◌then◌else◌, String, ◌≡◌, Bool, false, ◌||◌, List, [], ◌∷◌, ◌++◌,
  arith, ◌==◌,
}
use kite_mcp_oauth.Http.{Cookie}

-- Whether a cookie of the name is among them.
abbrev pub sets : String → List Cookie → Bool
sets name [] = false
sets name (c ∷ cs) = c.name == name || sets name cs

pub sets-append :
    (name : String) (cs : List Cookie) (c : Cookie)
    → sets name (cs ++ c ∷ []) ≡ (sets name cs || c.name == name)
sets-append name [] c = ground arith
sets-append name (d ∷ cs) c = ground (arith, sets-append name cs c)

-- The value of the cookie of the name that was set last, which is the one a browser keeps.
abbrev or_value : Option String → String → Option String
or_value none value = some value
or_value (some later) value = some later

abbrev pub held : String → List Cookie → Option String
held name [] = none
held name (c ∷ cs) =
    let rest = held name cs in if c.name == name then or_value rest c.value else rest

pub held-append :
    (name : String) (cs : List Cookie) (c : Cookie)
    → c.name ≡ name
    → held name (cs ++ c ∷ []) ≡ some c.value
held-append name [] c e = ground (arith, eq_iff c.name name)
held-append name (d ∷ cs) c e = ground (arith, held-append name cs c e)
