-- ===== src/Transport/Health.antt =====
-- performHealthCheck of internal/transport/tcp_pool.go: the connection takes `room` more bytes, and
-- `respond` is what the other side sends back for the bytes that it is sent. Deadlines can be set.
pub mod Pings
use my_dfs.Common.{
  ℕ, zero, suc, ◌+◌, ◌-◌, ◌*◌, ◌/◌, ◌%◌, ◌^◌, ◌≤◌, ◌<◌, min, max, ◌≡◌, refl, sym, ap, ◌∙◌, subst,
  ◌≡⟨◌⟩◌, ◌∎, ◌≢◌, ◌↔◌, ◌⊎◌, inl, inr, Bool, true, false, ◌&&◌, ◌||◌, not, Option, none, some, List,
  [], ◌∷◌, ◌++◌, map, append-nil, append_assoc, arith, ltb, leb, ◌==◌, if◌then◌else◌, ltb→lt,
  lt→ltb, le→ltb, leb→le, le→leb, lt→leb, ==_iff, ==_refl, tests, Bool-cases, Option-cases, Result,
  ok, err, ◌>>=◌, ◌>>◌, or_fail, Result-cases, Codec, length, get_elem?, take, drop, replicate, All,
  length-append, take-append-drop, length-take, length-drop, take_all, drop_all, take-append,
  drop-append, All-append, nil_of_length,
}
use my_dfs.Protocol.{
  Message, Writer, ProtocolError, encode, decode, new_message, read_payload, type_ping,
}
use my_dfs.Storage.Tree.{same_path}

-- "PING"
abbrev pub ping_text : List ℕ
ping_text = b'P' ∷ b'I' ∷ b'N' ∷ b'G' ∷ []

-- The type of the response is not looked at.
unfoldable pub is_echo : Result ProtocolError (Message × List ℕ) → Bool
is_echo (err e) = false
is_echo (ok (m, rest)) = same_path (read_payload m rest).0 ping_text

unfoldable pub perform_health_check : ℕ → (List ℕ → List ℕ) → Bool
perform_health_check room respond =
    let (w, sent) =
      encode (record { written = []; room = room })
        (new_message type_ping (some ping_text) (length ping_text)) in
    elim sent [ err _ ↦ false | ok _ ↦ is_echo (decode (respond w.written)) ]
