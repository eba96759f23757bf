-- ===== src/PortMapping/Texts.antt =====
-- The texts of crates/pnos-net/src/nat/mod.rs: the descriptions of the mapped ports, as bytes.
use pnos_sdk.Base.{ℕ, Bool, true, false, ◌&&◌, ◌||◌, List, [], ◌∷◌, ◌==◌}

-- The text starts with the word.
abbrev starts_with : List ℕ → List ℕ → Bool
starts_with text [] = true
starts_with [] (c ∷ word) = false
starts_with (t ∷ text) (c ∷ word) = t == c && starts_with text word

-- `str::contains`.
abbrev pub contains : List ℕ → List ℕ → Bool
contains [] word = starts_with [] word
contains (t ∷ text) word = starts_with (t ∷ text) word || contains text word

abbrev pub pnos_text : List ℕ
pnos_text = b'P' ∷ b'N' ∷ b'O' ∷ b'S' ∷ []

abbrev pub pdc_text : List ℕ
pdc_text = b'P' ∷ b'D' ∷ b'C' ∷ []

abbrev pub http_tracker : List ℕ
http_tracker =
    b'P' ∷ b'N' ∷ b'O' ∷ b'S' ∷ b' ' ∷ b'H' ∷ b'T' ∷ b'T' ∷ b'P' ∷ b' ' ∷ b'T' ∷ b'r' ∷ b'a' ∷ b'c'
    ∷ b'k' ∷ b'e' ∷ b'r' ∷ []

abbrev pub udp_tracker : List ℕ
udp_tracker =
    b'P' ∷ b'N' ∷ b'O' ∷ b'S' ∷ b' ' ∷ b'U' ∷ b'D' ∷ b'P' ∷ b' ' ∷ b'T' ∷ b'r' ∷ b'a' ∷ b'c' ∷ b'k'
    ∷ b'e' ∷ b'r' ∷ []

abbrev pub dht_crawler : List ℕ
dht_crawler =
    b'P' ∷ b'N' ∷ b'O' ∷ b'S' ∷ b' ' ∷ b'D' ∷ b'H' ∷ b'T' ∷ b' ' ∷ b'C' ∷ b'r' ∷ b'a' ∷ b'w' ∷ b'l'
    ∷ b'e' ∷ b'r' ∷ []

abbrev pub relay_tcp : List ℕ
relay_tcp =
    b'P' ∷ b'N' ∷ b'O' ∷ b'S' ∷ b' ' ∷ b'R' ∷ b'e' ∷ b'l' ∷ b'a' ∷ b'y' ∷ b' ' ∷ b'T' ∷ b'C' ∷ b'P'
    ∷ []

abbrev pub relay_udp : List ℕ
relay_udp =
    b'P' ∷ b'N' ∷ b'O' ∷ b'S' ∷ b' ' ∷ b'R' ∷ b'e' ∷ b'l' ∷ b'a' ∷ b'y' ∷ b' ' ∷ b'U' ∷ b'D' ∷ b'P'
    ∷ []

abbrev pub utp_server : List ℕ
utp_server =
    b'P' ∷ b'N' ∷ b'O' ∷ b'S' ∷ b' ' ∷ b'u' ∷ b'T' ∷ b'P' ∷ b' ' ∷ b'S' ∷ b'e' ∷ b'r' ∷ b'v' ∷ b'e'
    ∷ b'r' ∷ []

abbrev pub tcp_pex_receiver : List ℕ
tcp_pex_receiver =
    b'P' ∷ b'N' ∷ b'O' ∷ b'S' ∷ b' ' ∷ b'T' ∷ b'C' ∷ b'P' ∷ b'-' ∷ b'P' ∷ b'E' ∷ b'X' ∷ b' ' ∷ b'R'
    ∷ b'e' ∷ b'c' ∷ b'e' ∷ b'i' ∷ b'v' ∷ b'e' ∷ b'r' ∷ []

abbrev pub federation_tcp : List ℕ
federation_tcp =
    b'P' ∷ b'N' ∷ b'O' ∷ b'S' ∷ b' ' ∷ b'F' ∷ b'e' ∷ b'd' ∷ b'e' ∷ b'r' ∷ b'a' ∷ b't' ∷ b'i' ∷ b'o'
    ∷ b'n' ∷ b' ' ∷ b'T' ∷ b'C' ∷ b'P' ∷ []

abbrev pub federation_udp : List ℕ
federation_udp =
    b'P' ∷ b'N' ∷ b'O' ∷ b'S' ∷ b' ' ∷ b'F' ∷ b'e' ∷ b'd' ∷ b'e' ∷ b'r' ∷ b'a' ∷ b't' ∷ b'i' ∷ b'o'
    ∷ b'n' ∷ b' ' ∷ b'U' ∷ b'D' ∷ b'P' ∷ []
