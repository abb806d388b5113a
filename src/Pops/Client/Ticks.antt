-- ===== src/Pops/Client/Ticks.antt =====
-- A driver that hears nothing: what `tm_sync` does, call after call.
use cosmid.Base.{
  ℕ, zero, suc, ◌-◌, ◌≡◌, refl, ap, ◌∙◌, arith, true, false, List, [], ◌∷◌, ◌++◌, ltb, leb, ◌==◌,
  if◌then◌else◌,
}
use cosmid.Pops.Client.{
  Client, Effect, wrote, srvr_is_stale, status_request, forward, app_connected, count_silence,
  tm_sync,
}

-- `k` calls of `tm_sync` with nothing in between
pub ticks : ℕ → Client → Client × List Effect
unfolding tm_sync
ticks zero c = (c, [])
ticks (suc k) c =
    let (c', out) = ticks k c in let (c'', effects) = tm_sync c' in (c'', out ++ effects)

-- a client that has just heard from the instrument and from the server
abbrev pub current : ℕ → Client
current srvr = record {
  srvr = srvr;
  stale = 0;
  srvr_stale = 0;
  timer = false;
  connected = true;
  negotiated = true;
}

-- the client behind `k` calls
abbrev pub silent : ℕ → ℕ → Client
silent srvr k = record {
  srvr = srvr;
  stale = if ltb k 255 then k else 255;
  srvr_stale = if ltb k 257 then k - 2 else 255;
  timer = leb 3 k;
  connected = true;
  negotiated = true;
}

tm_sync-silent :
    (srvr k : ℕ)
    → tm_sync (silent srvr k) ≡ (
      silent srvr (suc k),
      (if k == 2 then wrote status_request ∷ [] else if k == 6 then srvr_is_stale ∷ [] else []),
    )
unfolding tm_sync app_connected count_silence forward
tm_sync-silent srvr k = ground arith

-- what is done in `k` calls
abbrev done : ℕ → List Effect
done k =
    (if leb 3 k then wrote status_request ∷ [] else [])
    ++ (if leb 7 k then srvr_is_stale ∷ [] else [])

done-suc :
    (k : ℕ)
    → done k
        ++ (if k == 2 then wrote status_request ∷ [] else if k == 6 then srvr_is_stale ∷ [] else [])
      ≡ done (suc k)
done-suc k = ground arith

-- After news of the instrument and an answer of the server over a connection, let nothing be heard for
-- `k` calls of `tm_sync`. Then the driver has asked the server for its status once if `k` is at least 3,
-- and not before; it has complained of the server once, behind that, if `k` is at least 7; and it has
-- done nothing else, however large `k` is: its two counts of 8 bits stop at 255 and do not wrap, the
-- timer of the request is set, and the state of the server is the last one known.
pub ticks_lem :
    (srvr k : ℕ)
    → ticks k (current srvr) ≡ (
      silent srvr k,
      (if leb 3 k then wrote status_request ∷ [] else [])
          ++ (if leb 7 k then srvr_is_stale ∷ [] else []),
    )
unfolding ticks
ticks_lem srvr zero = refl
ticks_lem srvr (suc k) =
    ap (λ p. ((tm_sync p.0).0, p.1 ++ (tm_sync p.0).1)) (ticks_lem srvr k)
    ∙ ap (λ q. (q.0, done k ++ q.1)) (tm_sync-silent srvr k)
    ∙ ap (λ out. (silent srvr (suc k), out)) (done-suc k)
