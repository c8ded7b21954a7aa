-- ===== src/Rig/Stub/Stream.antt =====
-- firmware/rig_stub.py, `_serve_client`: the stream of replies to a stream of requests.
use kpcl_hardware.Common.{
  ℕ, zero, suc, ◌+◌, ◌-◌, ◌*◌, ◌/◌, ◌%◌, ◌<◌, ◌≡◌, ◌∙◌, refl, sym, ap, false, ◌||◌, Option, none,
  some, List, [], ◌∷◌, ◌++◌, ltb, ◌==◌, length, take, drop, arith, length-append,
}
use kpcl_hardware.Rig.Stub.{
  RigStub, handle_pdu, serve_turn, serve_client, after_turn, then_write, frame_reply,
}

-- A request as a client sends it: the two bytes of its transaction, its unit, and its PDU.
pub record Transaction : Type 0 where
  pub t0 : ℕ
  pub t1 : ℕ
  pub unit : ℕ
  pub pdu : List ℕ

-- A PDU behind its header.
unfoldable pub framed : ℕ → ℕ → ℕ → List ℕ → List ℕ
framed t0 t1 unit pdu =
    t0 ∷ t1 ∷ 0 ∷ 0 ∷ (length pdu + 1) / 256 ∷ (length pdu + 1) % 256 ∷ unit ∷ pdu

unfoldable pub sent : List Transaction → List ℕ
unfolding framed
sent [] = []
sent (c ∷ cs) = framed c.t0 c.t1 c.unit c.pdu ++ sent cs

-- A reply behind its header, and what is written after it.
unfoldable pub write_reply : Transaction → Option (List ℕ) → Option (List ℕ) → Option (List ℕ)
unfolding framed then_write
write_reply c none more = none
write_reply c (some reply) more = then_write (framed c.t0 c.t1 c.unit reply) more

-- The replies, each behind a header with its request's transaction and unit; `none` where the code
-- raises on a request.
unfoldable pub answers : RigStub → List Transaction → Option (List ℕ)
unfolding write_reply handle_pdu
answers rig [] = some []
answers rig (c ∷ cs) = write_reply c (handle_pdu rig c.pdu) (answers rig cs)

take-append : (xs ys : List ℕ) → take (length xs) (xs ++ ys) ≡ xs
take-append [] ys = refl
take-append (x ∷ xs) ys = rw (take-append xs ys) refl

drop-append : (xs ys : List ℕ) → drop (length xs) (xs ++ ys) ≡ ys
drop-append [] ys = refl
drop-append (x ∷ xs) ys = drop-append xs ys

serve_turn-framed :
    (rig : RigStub) (t0 t1 unit : ℕ) (pdu rest : List ℕ)
    → serve_turn rig (framed t0 t1 unit pdu ++ rest)
      ≡ frame_reply t0 t1 unit rest (handle_pdu rig pdu)
unfolding serve_turn framed
serve_turn-framed rig t0 t1 unit pdu rest =
    let size : (length pdu + 1) / 256 * 256 + (length pdu + 1) % 256 ≡ length pdu + 1 =
      omega arith in
    let body : length pdu + 1 - 1 ≡ length pdu = omega arith in
    let total = length-append pdu rest in
    let enough : (length pdu + 1 == 0 || ltb (length (pdu ++ rest) + 1) (length pdu + 1)) ≡ false =
      ground arith in
    rw (size, enough, body, take-append pdu rest, drop-append pdu rest) refl

then_write_inv :
    (reply : List ℕ) (o : Option (List ℕ)) {out : List ℕ}
    → then_write reply o ≡ some out
    → (more : List ℕ) × (o ≡ some more)
unfolding then_write
then_write_inv reply none e = cc
then_write_inv reply (some more) e = (more, refl)

after_turn-framed :
    (serve : List ℕ → Option (List ℕ)) (c : Transaction) (rest : List ℕ) (o more : Option (List ℕ))
    {out : List ℕ}
    → write_reply c o more ≡ some out
    → ((later : List ℕ) → more ≡ some later → serve rest ≡ some later)
    → after_turn serve (frame_reply c.t0 c.t1 c.unit rest o) ≡ some out
unfolding after_turn frame_reply write_reply framed
after_turn-framed serve c rest none more e ih = cc
after_turn-framed serve c rest (some reply) more e ih =
    let m = then_write_inv (framed c.t0 c.t1 c.unit reply) more e in
    ap (then_write (framed c.t0 c.t1 c.unit reply)) (ih m.0 m.1 ∙ sym m.1) ∙ e

-- Requests that are sent one behind the other, to registers that stand still, are all answered, in
-- their order, each by what `handle_pdu` makes of its own PDU under its own transaction and unit,
-- provided that the code raises on none of them; fuel of more than the number of bytes is enough.
pub serve_client-answers :
    (fuel : ℕ) (rig : RigStub) (calls : List Transaction) {out : List ℕ}
    → length (sent calls) < fuel
    → answers rig calls ≡ some out
    → serve_client fuel rig (sent calls) ≡ some out
unfolding serve_client sent answers
serve_client-answers zero rig calls h e = absurd (omega arith)
serve_client-answers (suc fuel) rig [] h e = e
serve_client-answers (suc fuel) rig (c ∷ cs) h e =
    ap (after_turn (serve_client fuel rig)) (serve_turn-framed rig c.t0 c.t1 c.unit c.pdu (sent cs))
    ∙ after_turn-framed (serve_client fuel rig) c (sent cs) (handle_pdu rig c.pdu) (answers rig cs)
        e
        (λ later k.
          serve_client-answers fuel rig cs
            (omega (arith, length-append {0} (framed c.t0 c.t1 c.unit c.pdu) (sent cs))) k)
