-- ===== src/Session/Callbacks.antt =====
-- What the callbacks of a protocol may do to their session (src/session.hpp): they use its methods.
use lserver.Prelude.{ℕ, Option, none, some}
use lserver.Session
use lserver.Session.{Session, Reply, replied, no_reply, Protocol}

module _ (P : Session → Type 0) where
  abbrev pub SendsWith : Option Session → Type 0
  SendsWith none = Unit {0}
  SendsWith (some s) = P s

  abbrev pub RepliesWith {ℓ} : {S : Type ℓ} → Reply S → Type 0
  RepliesWith (replied x s feedback) = P s
  RepliesWith no_reply = Unit

  -- Each method that a protocol calls on its session keeps `P`.
  pub record IsKept : Type 0 where
    pub consume : (s : Session) (n : ℕ) → P s → P (Session.consume s n)
    pub set_expected_data_length :
        (s : Session) (n : ℕ) → P s → P (Session.set_expected_data_length s n)
    pub reset_buffers : (s : Session) → P s → P (Session.reset_buffers s)
    pub send : (s : Session) (qb : ℕ) → P s → SendsWith (Session.send s qb)

  -- So do the callbacks of a protocol.
  pub record Keeps {ℓ} {S : Type ℓ} (protocol : Protocol S) : Type ℓ where
    pub start : (x : S) (s : Session) → P s → P (protocol.start x s).1
    pub on_data : (x : S) (s : Session) → P s → RepliesWith (protocol.on_data x s)
    pub on_sent : (x : S) (s : Session) → P s → RepliesWith (protocol.on_sent x s)
