-- ===== src/Settings/Once.antt =====
-- The client is made once, whatever the first attempt comes to.
use maroonedpods.Prelude.{
  ◌≡◌, refl, ap, true, false, Option, none, List, [], ◌∷◌, map, Result, Error,
}
use maroonedpods.Settings.{Package, client_of, error_of, get_client}

abbrev pub fresh : {C : Type 0} → Package C
fresh = record { done = false; client = none }

-- the results of one call after the other
unfoldable pub get_clients :
    {C : Type 0} → Package C → List (Result C) → List (Option C × Option Error)
unfolding get_client
get_clients p [] = []
get_clients p (made ∷ later) = let (p', result) = get_client p made in result ∷ get_clients p' later

get_clients-done :
    {C : Type 0}
    → (client : Option C) (later : List (Result C))
    → get_clients (record { done = true; client = client }) later ≡ map (λ _. (client, none)) later
unfolding get_clients
get_clients-done client [] = refl
get_clients-done client (made ∷ later) =
    ap (λ rest. (client, none) ∷ rest) (get_clients-done client later)

-- Only the first call makes a client and reports its error. Every later call returns what the first
-- call left, without an error: the same client, or nil if the first call failed.
pub get_clients-first :
    {C : Type 0}
    → (made : Result C) (later : List (Result C))
    → get_clients fresh (made ∷ later)
      ≡ (client_of made, error_of made) ∷ map (λ _. (client_of made, none)) later
unfolding get_clients
get_clients-first made later =
    ap (λ rest. (client_of made, error_of made) ∷ rest) (get_clients-done (client_of made) later)
