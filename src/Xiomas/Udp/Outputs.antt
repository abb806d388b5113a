-- ===== src/Xiomas/Udp/Outputs.antt =====
-- What was put out, as lists: what was logged, forwarded and sent.
use cosmid.Base.{ℕ, ◌≡◌, refl, ap, Bool, ◌&&◌, List, [], ◌∷◌, ◌++◌, leb, ◌==◌, length}
use cosmid.Xiomas.Packet
use cosmid.Xiomas.Packet.{
  fill_header, header_bytes, Header, header_size, header_at, validate_header,
}
use cosmid.Xiomas.Udp.{Output, reported, logged, sent, forwarded}

-- a status packet from the scanner
abbrev pub is_status : List ℕ → Bool
is_status bytes =
    leb header_size (length bytes)
    && validate_header (header_at bytes 0) (length bytes)
    && (header_at bytes 0).source == Packet.Src.scanner
    && (header_at bytes 0).packet_id == Packet.Pid.xio_status

abbrev pub logs : List Output → List (List ℕ)
logs [] = []
logs (logged bytes ∷ out) = bytes ∷ logs out
logs (reported report ∷ out) = logs out
logs (sent bytes ∷ out) = logs out
logs (forwarded spans ∷ out) = logs out

-- the spans written to tm_ip_export, packet by packet
abbrev pub forwards : List Output → List (List (List ℕ))
forwards [] = []
forwards (forwarded spans ∷ out) = spans ∷ forwards out
forwards (reported report ∷ out) = forwards out
forwards (sent bytes ∷ out) = forwards out
forwards (logged bytes ∷ out) = forwards out

-- the messages to the scanner
abbrev pub sends : List Output → List (List ℕ)
sends [] = []
sends (sent bytes ∷ out) = bytes ∷ sends out
sends (reported report ∷ out) = sends out
sends (forwarded spans ∷ out) = sends out
sends (logged bytes ∷ out) = sends out

-- all that was done but what went to tm_ip_export
abbrev pub unforwarded : List Output → List Output
unforwarded [] = []
unforwarded (forwarded spans ∷ out) = unforwarded out
unforwarded (reported report ∷ out) = reported report ∷ unforwarded out
unforwarded (sent bytes ∷ out) = sent bytes ∷ unforwarded out
unforwarded (logged bytes ∷ out) = logged bytes ∷ unforwarded out

pub logs-append : (out new : List Output) → logs (out ++ new) ≡ logs out ++ logs new
logs-append [] new = refl
logs-append (logged bytes ∷ out) new = ap (λ l. bytes ∷ l) (logs-append out new)
logs-append (reported report ∷ out) new = logs-append out new
logs-append (sent bytes ∷ out) new = logs-append out new
logs-append (forwarded spans ∷ out) new = logs-append out new

pub forwards-append : (out new : List Output) → forwards (out ++ new) ≡ forwards out ++ forwards new
forwards-append [] new = refl
forwards-append (forwarded spans ∷ out) new = ap (λ l. spans ∷ l) (forwards-append out new)
forwards-append (reported report ∷ out) new = forwards-append out new
forwards-append (sent bytes ∷ out) new = forwards-append out new
forwards-append (logged bytes ∷ out) new = forwards-append out new

pub unforwarded-same : (out : List Output) → forwards out ≡ [] → unforwarded out ≡ out
unforwarded-same [] e = refl
unforwarded-same (forwarded spans ∷ out) e = cc
unforwarded-same (reported report ∷ out) e = ap (λ l. reported report ∷ l) (unforwarded-same out e)
unforwarded-same (sent bytes ∷ out) e = ap (λ l. sent bytes ∷ l) (unforwarded-same out e)
unforwarded-same (logged bytes ∷ out) e = ap (λ l. logged bytes ∷ l) (unforwarded-same out e)

pub unforwarded-forwarded :
    (out : List Output) (spans : List (List ℕ))
    → forwards out ≡ []
    → unforwarded (out ++ (forwarded spans ∷ [])) ≡ out
unforwarded-forwarded [] spans e = refl
unforwarded-forwarded (forwarded _ ∷ out) spans e = cc
unforwarded-forwarded (reported report ∷ out) spans e =
    ap (λ l. reported report ∷ l) (unforwarded-forwarded out spans e)
unforwarded-forwarded (sent bytes ∷ out) spans e =
    ap (λ l. sent bytes ∷ l) (unforwarded-forwarded out spans e)
unforwarded-forwarded (logged bytes ∷ out) spans e =
    ap (λ l. logged bytes ∷ l) (unforwarded-forwarded out spans e)
