-- ===== src/Rig/Stub/Pdu.antt =====
-- firmware/rig_stub.py, `handle_pdu` and `_serve_client`: the bytes of a reply, and a connection's end.
use kpcl_hardware.Common.{
  ℕ, zero, suc, ◌+◌, ◌-◌, ◌*◌, ◌/◌, ◌%◌, ◌≤◌, ◌<◌, ◌≡◌, ◌∙◌, refl, ap, true, false, not, ◌&&◌, ◌||◌,
  Option, none, some, List, [], ◌∷◌, ◌++◌, ltb, leb, ◌==◌, if◌then◌else◌, length, take, drop, All,
  arith, inl, inr, if_elim, Bool-cases, length-drop, All-take, All-drop,
}
use kpcl_hardware.Common.Int.{ℤ, pos}
use kpcl_hardware.Rig.Stub.{
  RigStub, Turn, replied, closed, pack_words, registers_reply, handle_pdu, answer_pdu, serve_turn,
  serve_client, after_turn, then_write, frame_reply, exception_reply, illegal_data_address,
}

-- Words, high byte first.
unfoldable pub be_bytes : List ℕ → List ℕ
be_bytes [] = []
be_bytes (w ∷ ws) = w / 256 ∷ w % 256 ∷ be_bytes ws

-- Registers that hold words.
unfoldable pub registers_of : List ℕ → List ℤ
registers_of [] = []
registers_of (w ∷ ws) = pos w ∷ registers_of ws

abbrev pub IsWord : ℕ → Type 0
IsWord w = w < 65_536

length-be_bytes : (ws : List ℕ) → length (be_bytes ws) ≡ 2 * length ws
unfolding be_bytes
length-be_bytes [] = refl
length-be_bytes (w ∷ ws) = omega (arith, length-be_bytes ws)

pack_words-registers_of :
    (ws : List ℕ) → All IsWord ws → pack_words (registers_of ws) ≡ some (be_bytes ws)
unfolding pack_words registers_of be_bytes
pack_words-registers_of [] h = refl
pack_words-registers_of (w ∷ ws) h =
    let fits : ltb w 65_536 ≡ true = ground (arith, h.0) in
    rw (pack_words-registers_of ws h.1, fits) refl

take-registers_of : (n : ℕ) (ws : List ℕ) → take n (registers_of ws) ≡ registers_of (take n ws)
unfolding registers_of
take-registers_of zero ws = refl
take-registers_of (suc n) [] = refl
take-registers_of (suc n) (w ∷ ws) = rw (take-registers_of n ws) refl

drop-registers_of : (n : ℕ) (ws : List ℕ) → drop n (registers_of ws) ≡ registers_of (drop n ws)
unfolding registers_of
drop-registers_of zero ws = refl
drop-registers_of (suc n) [] = refl
drop-registers_of (suc n) (w ∷ ws) = drop-registers_of n ws

length-take : (n : ℕ) (ws : List ℕ) → n ≤ length ws → length (take n ws) ≡ n
length-take zero ws h = refl
length-take (suc n) [] h = absurd (omega arith)
length-take (suc n) (w ∷ ws) h = omega (arith, length-take n ws)

-- The bytes of a request.
abbrev pub request : ℕ → ℕ → ℕ → List ℕ
request function address count =
    function ∷ address / 256 ∷ address % 256 ∷ count / 256 ∷ count % 256 ∷ []

-- What is to be answered to a read of a range of registers.
unfoldable pub read_reply : List ℕ → ℕ → ℕ → List ℕ
unfolding be_bytes exception_reply
read_reply ws address count =
    if not (count == 0) && leb (address + count) 8
    then 4 ∷ 2 * count ∷ be_bytes (take count (drop address ws))
    else exception_reply 4 illegal_data_address

payload_reply :
    (ws : List ℕ) (address count : ℕ)
    → length ws ≡ 8
    → All IsWord ws
    → address + count ≤ 8
    → elim (pack_words (take count (drop address (registers_of ws)))) as (λ x. Option (List ℕ)) [
      | none ↦ none
      | some payload ↦ some (4 ∷ length payload ∷ payload)
    ]
      ≡ some (4 ∷ 2 * count ∷ be_bytes (take count (drop address ws)))
payload_reply ws address count h w k =
    let part = take count (drop address ws) in
    let words : All IsWord part = All-take IsWord count _ (All-drop IsWord address ws w) in
    let shifted : take count (drop address (registers_of ws)) ≡ registers_of part =
      rw (drop-registers_of address ws) (take-registers_of count (drop address ws)) in
    let size : length part ≡ count =
      length-take count (drop address ws) (omega (arith, length-drop {0} address ws)) in
    let bytes : length (be_bytes part) ≡ 2 * count =
      length-be_bytes part ∙ ap (λ (n : ℕ). 2 * n) size in
    rw (shifted, pack_words-registers_of part words, bytes) refl

split_word : (n : ℕ) → n / 256 * 256 + n % 256 ≡ n
split_word n = omega arith

-- A request to read input registers, of an image of eight words, is answered by the words of the range
-- it names, high byte first, if the range has a register and lies within the eight, and by the
-- exception for an illegal data address otherwise.
pub handle_pdu-read_reply :
    (rig : RigStub) (ws : List ℕ) (address count : ℕ)
    → rig.input_registers ≡ registers_of ws
    → length ws ≡ 8
    → All IsWord ws
    → handle_pdu rig (request 4 address count) ≡ some (read_reply ws address count)
unfolding handle_pdu answer_pdu registers_reply read_reply
handle_pdu-read_reply rig ws address count e h w =
    rw (split_word address, split_word count, e)
      (elim (Bool-cases (not (count == 0) && leb (address + count) 8)) [
        | inl ok ↦
            let small : address + count ≤ 8 = ground arith in
            let guard : (count == 0 || ltb 8 (address + count)) ≡ false = ground arith in
            rw (ok, guard) (payload_reply ws address count h w small)
        | inr far ↦
            let guard : (count == 0 || ltb 8 (address + count)) ≡ true = ground arith in
            rw (far, guard) refl
      ])

-- A turn that answers leaves fewer bytes than it found.
abbrev Shorter : ℕ → Turn → Type 0
Shorter n closed = Unit
Shorter n (replied reply rest) = length rest < n

frame_reply-Shorter :
    (n t0 t1 unit : ℕ) (rest : List ℕ) (o : Option (List ℕ))
    → length rest < n
    → Shorter n (frame_reply t0 t1 unit rest o)
unfolding frame_reply
frame_reply-Shorter n t0 t1 unit rest none h = tt
frame_reply-Shorter n t0 t1 unit rest (some reply) h = h

serve_turn-Shorter :
    (rig : RigStub) (input : List ℕ) → Shorter (length input) (serve_turn rig input)
unfolding serve_turn
serve_turn-Shorter rig ([]) = tt
serve_turn-Shorter rig (a ∷ []) = tt
serve_turn-Shorter rig (a ∷ b ∷ []) = tt
serve_turn-Shorter rig (a ∷ b ∷ c ∷ []) = tt
serve_turn-Shorter rig (a ∷ b ∷ c ∷ d ∷ []) = tt
serve_turn-Shorter rig (a ∷ b ∷ c ∷ d ∷ e ∷ []) = tt
serve_turn-Shorter rig (a ∷ b ∷ c ∷ d ∷ e ∷ f ∷ []) = tt
serve_turn-Shorter rig (t0 ∷ t1 ∷ p0 ∷ p1 ∷ l0 ∷ l1 ∷ unit ∷ rest) =
    let size = l0 * 256 + l1 in
    if_elim (Shorter _) (size == 0 || ltb (length rest + 1) size) (λ e. tt)
      (λ e.
        frame_reply-Shorter _ t0 t1 unit (drop (size - 1) rest)
          (handle_pdu rig (take (size - 1) rest)) (omega (arith, length-drop {0} (size - 1) rest)))

after_turn-Ends :
    (n : ℕ) (serve : List ℕ → Option (List ℕ)) (t : Turn)
    → Shorter n t
    → ((rest : List ℕ) → length rest < n → (out : List ℕ) × (serve rest ≡ some out))
    → (out : List ℕ) × (after_turn serve t ≡ some out)
unfolding after_turn then_write
after_turn-Ends n serve closed s ih = ([], refl)
after_turn-Ends n serve (replied reply rest) s ih = let r = ih rest s in (reply ++ r.0, rw r.1 refl)

-- Whatever bytes a client sends, the server comes to an end on them: fuel of more than their number is
-- enough, since each turn that answers consumes some.
pub serve_client-Ends :
    (fuel : ℕ) (rig : RigStub) (input : List ℕ)
    → length input < fuel
    → (out : List ℕ) × (serve_client fuel rig input ≡ some out)
unfolding serve_client
serve_client-Ends zero rig input h = absurd (omega arith)
serve_client-Ends (suc fuel) rig input h =
    after_turn-Ends (length input) (serve_client fuel rig) (serve_turn rig input)
      (serve_turn-Shorter rig input) (λ rest k. serve_client-Ends fuel rig rest (omega arith))
