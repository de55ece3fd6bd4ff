-- ===== src/Store/Mailbox/Letters.antt =====
-- Mailboxes: for each route key a list of letters, the oldest first.
use qsl_server.Base.{
  ℕ, zero, suc, ◌+◌, Text, Bool, ◌&&◌, Option, some, List, [], ◌∷◌, leb, if◌then◌else◌, select,
  delete_where, length,
}
use qsl_server.Store.Schema.{StoredMsg}
use qsl_server.Store.Pull.{is_free}
use qsl_server.Store.Ack.{is_leased, listed}

pub record Letter : Type 0 where
  pub msg_id : Text
  pub body : List ℕ
  pub posted_at : ℕ
  pub hidden_until : Option ℕ

abbrev pub Boxes : Type 0
Boxes = Text → List Letter

abbrev pub is_shown : ℕ → Letter → Bool
is_shown now l = is_free now l.hidden_until

-- What the lifetime leaves of a box.
abbrev pub unexpired : ℕ → ℕ → List Letter → List Letter
unexpired ttl now ls = delete_where (λ l. leb (l.posted_at + ttl) now) ls

-- What a pull may return, in its order.
abbrev pub shown : ℕ → List Letter → List Letter
shown now ls = select (is_shown now) ls

-- The box without the first `n` letters that are shown.
abbrev pub hand_over : ℕ → ℕ → List Letter → List Letter
hand_over now zero ls = ls
hand_over now (suc n) [] = []
hand_over now (suc n) (l ∷ ls) =
    let taken = hand_over now n ls in
    let kept = l ∷ hand_over now (suc n) ls in if is_shown now l then taken else kept

-- The box with the first `n` letters that are shown hidden until the deadline.
abbrev pub lend : ℕ → ℕ → ℕ → List Letter → List Letter
lend now deadline zero ls = ls
lend now deadline (suc n) [] = []
lend now deadline (suc n) (l ∷ ls) =
    let lent = record l { hidden_until = some deadline } ∷ lend now deadline n ls in
    let kept = l ∷ lend now deadline (suc n) ls in if is_shown now l then lent else kept

-- The box without the letters that were lent and are listed.
abbrev pub discard : List Text → List Letter → List Letter
discard ids ls = delete_where (λ l. is_leased l.hidden_until && listed ids l.msg_id) ls

abbrev pub content : Letter → StoredMsg
content l = record { msg_id = l.msg_id; body = l.body }

abbrev pub weight : List Letter → ℕ
weight [] = 0
weight (l ∷ ls) = length l.body + weight ls
