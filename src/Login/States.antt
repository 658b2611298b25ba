-- ===== src/Login/States.antt =====
-- What one statement does to the states of logins.
use outlook_dictionary.Common.{
  ℕ, ◌≤◌, true, ◌≡◌, refl, false, none, List, [], ◌∷◌, ◌++◌, arith, ◌==◌, is_some,
}
use outlook_dictionary.Sql.{first, update_where}
use outlook_dictionary.Login.{OAuthState, is_consumable, consume_state}

-- No row of the state can be consumed from the instant on.
abbrev pub IsUsed : (state since : ℕ) → List OAuthState → Type 0
IsUsed state since rows = (now : ℕ) → since ≤ now → first (is_consumable state now) rows ≡ none

pub consumed-IsUsed :
    (state since : ℕ) (rows : List OAuthState)
    → IsUsed state since (consume_state state since rows).0
unfolding consume_state first update_where is_consumable
consumed-IsUsed state since [] now le = refl
consumed-IsUsed state since (s ∷ rows) now le =
    ground (arith, le, consumed-IsUsed state since rows now le)

-- A consumption of any state, at any time, leaves a used state used.
pub kept-IsUsed :
    (state now other when : ℕ) (rows : List OAuthState)
    → first (is_consumable state now) rows ≡ none
    → first (is_consumable state now) (consume_state other when rows).0 ≡ none
unfolding consume_state first update_where is_consumable
kept-IsUsed state now other when [] h = refl
kept-IsUsed state now other when (s ∷ rows) h =
    ground (arith, h, kept-IsUsed state now other when rows)

-- The state has a row.
abbrev pub IsKnown : (state : ℕ) → List OAuthState → Type 0
IsKnown state rows = is_some (first (λ s. s.state == state) rows) ≡ true

pub consumable-IsKnown :
    (state now : ℕ) (rows : List OAuthState)
    → is_some (first (is_consumable state now) rows) ≡ true
    → IsKnown state (consume_state state now rows).0
unfolding consume_state first update_where is_consumable
consumable-IsKnown state now [] h = h
consumable-IsKnown state now (s ∷ rows) h = ground (arith, h, consumable-IsKnown state now rows)

pub kept-IsKnown :
    (state other when : ℕ) (rows : List OAuthState)
    → IsKnown state rows
    → IsKnown state (consume_state other when rows).0
unfolding consume_state first update_where is_consumable
kept-IsKnown state other when [] h = h
kept-IsKnown state other when (s ∷ rows) h = ground (arith, h, kept-IsKnown state other when rows)

-- A state that has no row is not one that has.
pub fresh-differs :
    (state fresh : ℕ) (rows : List OAuthState)
    → IsKnown state rows
    → is_some (first (λ s. s.state == fresh) rows) ≡ false
    → (fresh == state) ≡ false
unfolding first
fresh-differs state fresh [] known absent = ground (arith, known)
fresh-differs state fresh (s ∷ rows) known absent =
    ground (arith, known, absent, fresh-differs state fresh rows)

-- A row of another state changes nothing for this one.
pub appended-IsUsed :
    (state now : ℕ) (rows : List OAuthState) (s : OAuthState)
    → (s.state == state) ≡ false
    → first (is_consumable state now) rows ≡ none
    → first (is_consumable state now) (rows ++ s ∷ []) ≡ none
unfolding first is_consumable
appended-IsUsed state now [] s other h = rw (other) refl
appended-IsUsed state now (r ∷ rows) s other h =
    ground (arith, h, appended-IsUsed state now rows s other)

pub appended-IsKnown :
    (state : ℕ) (rows : List OAuthState) (s : OAuthState)
    → IsKnown state rows
    → IsKnown state (rows ++ s ∷ [])
unfolding first
appended-IsKnown state [] s h = ground (arith, h)
appended-IsKnown state (r ∷ rows) s h = ground (arith, h, appended-IsKnown state rows s)
