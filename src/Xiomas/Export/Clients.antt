-- ===== src/Xiomas/Export/Clients.antt =====
-- Whom the export queue may tell: the invariant of xiomas_tcp_export through a call that starts
-- with the client `c` and in which `d` may ask to be told.
use cosmid.Base.{ℕ, ◌<◌, ◌≡◌, ◌⊎◌, inl, inr, sym, ◌∙◌, Option, none, some, List, [], ◌∷◌, ◌++◌}
use cosmid.Xiomas.Circ.Inv.{IsValid}
use cosmid.Xiomas.Export.{TcpExport, Effects, request_ack}
use cosmid.Xiomas.Export.Drain.{Tells}

abbrev pub Among : Option ℕ → Option ℕ → Option ℕ → Type 0
Among c d x = (x ≡ none) ⊎ (x ≡ c) ⊎ (x ≡ d)

abbrev pub AllAmong : Option ℕ → Option ℕ → List Effects → Type 0
AllAmong c d [] = Unit
AllAmong c d (effects ∷ more) = Among c d effects.acked × AllAmong c d more

pub AllAmong-append :
    (c d : Option ℕ) (xs ys : List Effects)
    → AllAmong c d xs
    → AllAmong c d ys
    → AllAmong c d (xs ++ ys)
AllAmong-append c d [] ys h h' = h'
AllAmong-append c d (x ∷ xs) ys (here, h) h' = (here, AllAmong-append c d xs ys h h')

-- a client in order within the call, after the effects of it so far
pub record IsTame (c d : Option ℕ) (max : ℕ) (e : TcpExport) (effects : List Effects) : Type 0 where
  pub valid : IsValid e.queue
  pub limited : e.queue.outstanding_bytes < max
  pub client : Among c d e.client
  pub told : AllAmong c d effects

Among-same : {c d x y : Option ℕ} → y ≡ x → Among c d x → Among c d y
Among-same e (inl h) = inl (e ∙ h)
Among-same e (inr (inl h)) = inr (inl (e ∙ h))
Among-same e (inr (inr h)) = inr (inr (e ∙ h))

-- Processing the queue keeps the invariant.
pub Tells-IsTame :
    {c d : Option ℕ} {max : ℕ} (e e' : TcpExport) (out : Effects) (effects : List Effects)
    → IsTame c d max e effects
    → IsValid e'.queue
    → e'.queue.outstanding_bytes < max
    → Tells e e' out
    → IsTame c d max e' (effects ++ (out ∷ []))
Tells-IsTame e e' out effects tame v less (inl (kept, silent)) = record {
  valid = v;
  limited = less;
  client = Among-same kept tame.client;
  told = AllAmong-append _ _ effects _ tame.told (inl silent, tt);
}
Tells-IsTame e e' out effects tame v less (inr (forgotten, told)) = record {
  valid = v;
  limited = less;
  client = inl forgotten;
  told = AllAmong-append _ _ effects _ tame.told (Among-same told tame.client, tt);
}

-- So does a request of the receiver `id`.
pub request_ack-IsTame :
    {c d : Option ℕ} {max : ℕ} {e : TcpExport} (id : ℕ) (effects : List Effects)
    → d ≡ some id
    → IsTame c d max e effects
    → IsTame c d max (request_ack e id) effects
unfolding request_ack
request_ack-IsTame id effects asks tame = record {
  valid = tame.valid;
  limited = tame.limited;
  client = inr (inr (sym asks));
  told = tame.told;
}
