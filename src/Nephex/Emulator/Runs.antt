-- ===== src/Nephex/Emulator/Runs.antt =====
-- Nephex/nephex_emulator.cc: NE_ingest from its construction on, while connections come and go.
use cosmid.Base.{
  ℕ, ◌+◌, ◌<◌, ◌≡◌, ◌≢◌, refl, sym, ap, arith, Bool, true, false, ◌||◌, Option, none, some, List,
  [], ◌∷◌, ◌==◌, if◌then◌else◌, ◌∙◌, Bool-cases, inl, inr,
}
use cosmid.Nephex.Emulator.{Ingest, connected, reset_client, set_client}
use cosmid.Nephex.Emulator.Clients.{connected_cases}
use cosmid.Nephex.Emulator.Play.{has_client}

-- The constructor: `client`, `last_secs` and `last_msecs` are what is in memory.
unfoldable pub new_ingest : Option ℕ → ℕ → ℕ → Ingest
new_ingest client last_secs last_msecs = record {
  client = client;
  reads = false;
  timer = false;
  last_secs = last_secs;
  last_msecs = last_msecs;
}

-- the connections that are open, numbered as they are accepted
pub record Emulator : Type 0 where
  pub ingest : Ingest
  pub connections : List ℕ
  pub accepted : ℕ

-- A connection is accepted and `connected` is called for it, or one is closed and its nephex_tcp
-- deleted.
pub data Event : Type 0 where
  connects : Event
  closes : ℕ → Event

unfoldable pub among : ℕ → List ℕ → Bool
among c [] = false
among c (x ∷ xs) = (x == c) || among c xs

remove : ℕ → List ℕ → List ℕ
remove c [] = []
remove c (x ∷ xs) = let rest = remove c xs in if x == c then xs else x ∷ rest

-- A connection that is refused is deleted by `connected`.
unfoldable pub new_client : Emulator → Emulator
new_client e = record {
  ingest = connected e.ingest e.accepted;
  connections = if has_client e.ingest then e.connections else e.accepted ∷ e.connections;
  accepted = e.accepted + 1;
}

-- The destructor resets the client.
pub step : Event → Emulator → Emulator
unfolding remove new_client
step connects e = new_client e
step (closes c) e =
    if among c e.connections
    then record e { ingest = reset_client e.ingest; connections = remove c e.connections }
    else e

pub run : List Event → Emulator → Emulator
unfolding step
run [] e = e
run (event ∷ events) e = run events (step event e)

abbrev pub start : Option ℕ → ℕ → ℕ → Emulator
start client last_secs last_msecs = record {
  ingest = new_ingest client last_secs last_msecs;
  connections = [];
  accepted = 0;
}

-- The client is an open connection, and the file is read exactly while there is one.
record IsSafe (e : Emulator) : Type 0 where
  pub connected_client : (c : ℕ) → e.ingest.client ≡ some c → among c e.connections ≡ true
  pub reads_for : e.ingest.reads ≡ has_client e.ingest

none-some : (c : ℕ) → none ≡ some c → ⊥
none-some c e = cc

some_same : (c d : ℕ) → some c ≡ some d → c ≡ d
some_same c d e = cc

among_first : (c d : ℕ) (xs : List ℕ) → c ≡ d → among d (c ∷ xs) ≡ true
unfolding among
among_first c d xs e = ground (arith, e)

connects-IsSafe :
    (client : Option ℕ) (e : Emulator)
    → e.ingest.client ≡ client
    → IsSafe (step connects (record e { ingest = record (e.ingest) { client = client } }))
unfolding step new_client connected set_client reset_client
connects-IsSafe none e same = record {
  connected_client = λ c h. among_first e.accepted c e.connections (some_same e.accepted c h);
  reads_for = refl;
}
connects-IsSafe (some other) e same = record {
  connected_client = λ c h. absurd (none-some c h);
  reads_for = refl;
}

step-IsSafe : (event : Event) (e : Emulator) → IsSafe e → IsSafe (step event e)
unfolding step reset_client
step-IsSafe connects e safe = connects-IsSafe e.ingest.client e refl
step-IsSafe (closes c) e safe = elim (Bool-cases (among c e.connections)) [
  | inr other ↦ rw other safe
  | inl here ↦
      rw here (record { connected_client = λ c h. absurd (none-some c h); reads_for = refl })
]

run-IsSafe : (events : List Event) (e : Emulator) → IsSafe e → IsSafe (run events e)
unfolding run
run-IsSafe [] e safe = safe
run-IsSafe (event ∷ events) e safe = run-IsSafe events (step event e) (step-IsSafe event e safe)

-- accepted, and not played to
abbrev IsLeft : ℕ → Emulator → Type 0
IsLeft c e = (c < e.accepted) × (e.ingest.client ≡ some c → ⊥)

connects-IsLeft :
    (c : ℕ) (client : Option ℕ) (e : Emulator)
    → c < e.accepted
    → IsLeft c (step connects (record e { ingest = record (e.ingest) { client = client } }))
unfolding step new_client connected set_client reset_client
connects-IsLeft c none e less =
    (omega (arith, less), λ h. omega (arith, less, some_same e.accepted c h))
connects-IsLeft c (some other) e less = (omega (arith, less), λ h. none-some c h)

step-IsLeft : (c : ℕ) (event : Event) (e : Emulator) → IsLeft c e → IsLeft c (step event e)
unfolding step reset_client
step-IsLeft c connects e (less, other) = connects-IsLeft c e.ingest.client e less
step-IsLeft c (closes d) e left = elim (Bool-cases (among d e.connections)) [
  | inr gone ↦ rw gone left
  | inl here ↦ rw here (left.0, λ h. none-some c h)
]

run-IsLeft : (c : ℕ) (events : List Event) (e : Emulator) → IsLeft c e → IsLeft c (run events e)
unfolding run
run-IsLeft c [] e left = left
run-IsLeft c (event ∷ events) e left =
    run-IsLeft c events (step event e) (step-IsLeft c event e left)

connects-held :
    (c : ℕ) (e : Emulator) → e.ingest.client ≡ some c → (step connects e).ingest.client ≡ none
unfolding step new_client
connects-held c e held = ((connected_cases e.ingest e.accepted).1 c held).0

-- Let the memory of the client be null at the construction. After any connections and closings, the
-- client is a connection that is open, and the file is read exactly while there is a client. A
-- connection that comes while there is a client leaves none. Whatever connections and closings follow,
-- a connection that was accepted and is not the client never becomes it.
pub run-plays :
    (last_secs last_msecs : ℕ) (client : Option ℕ) (events more : List Event) (c : ℕ)
    → client ≡ none
    → let e = run events (start client last_secs last_msecs) in
      (e.ingest.client ≡ some c → among c e.connections ≡ true)
      × (e.ingest.reads ≡ has_client e.ingest)
      × (e.ingest.client ≡ some c → (step connects e).ingest.client ≡ none)
      × (c < e.accepted → (e.ingest.client ≢ some c) → ((run more e).ingest.client ≢ some c))
unfolding new_ingest
run-plays last_secs last_msecs client events more c null =
    let e = run events (start client last_secs last_msecs) in
    let safe = run-IsSafe events (start client last_secs last_msecs) (record {
      connected_client = λ d h. absurd (none-some d (sym null ∙ h));
      reads_for = sym (ap (λ o. has_client (new_ingest o last_secs last_msecs)) null);
    }) in
    (
      safe.connected_client c,
      safe.reads_for,
      connects-held c e,
      λ less other. (run-IsLeft c more e (less, other)).1,
    )
