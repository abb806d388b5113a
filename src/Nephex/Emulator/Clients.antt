-- ===== src/Nephex/Emulator/Clients.antt =====
-- Who is played to when connections come.
use cosmid.Base.{ℕ, ◌≡◌, refl, sym, ap, subst, true, false, none, some}
use cosmid.Nephex.Emulator.{Ingest, connected}

-- A connection that comes when there is no client becomes the client and starts the reading. One that
-- comes when there is a client already ends the playing to that client: then there is no client, and
-- nothing is read.
pub connected_cases :
    (i : Ingest) (c : ℕ)
    → (i.client ≡ none → ((connected i c).client ≡ some c) × ((connected i c).reads ≡ true))
      × ((other : ℕ)
          → i.client ≡ some other
          → ((connected i c).client ≡ none) × ((connected i c).reads ≡ false))
unfolding connected
connected_cases i c = (
  λ e.
      subst (λ j. ((connected j c).client ≡ some c) × ((connected j c).reads ≡ true))
        (sym (ap (λ o. record i { client = o }) e)) (refl, refl),
  λ other e.
      subst (λ j. ((connected j c).client ≡ none) × ((connected j c).reads ≡ false))
        (sym (ap (λ o. record i { client = o }) e)) (refl, refl),
)
