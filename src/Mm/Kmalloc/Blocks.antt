-- ===== src/Mm/Kmalloc/Blocks.antt =====
-- Each write sequence of kmalloc.c on the store, and the change of the chain that it makes.
use dummy_os.Prelude.{
  ℕ, ◌+◌, ◌-◌, ◌*◌, ◌%◌, ◌^◌, ◌≤◌, ◌<◌, ◌≡◌, refl, ◌∙◌, inl, inr, true, false, List, [], ◌∷◌, ltb,
  arith, Bool-cases,
}
use dummy_os.Libk.Utils.{word, add32}
use dummy_os.Mm.Kmalloc.{Store, set_used, split_block, take_block, append_block, widen_block}
use dummy_os.Mm.Kmalloc.Chain.{Block, link, IsBlockSize, Chain, Chain-agree, Chain-cons}
use dummy_os.Mm.Kmalloc.FirstFit.{carve}

set_used-Chain :
    (m : Store) (a : ℕ) (b : Block) (bs : List Block)
    → Chain m a (b ∷ bs)
    → Chain (set_used m a) a (record b { used = true } ∷ bs)
unfolding set_used
set_used-Chain m a b bs (h, big, fits, c) =
    (ground arith, big, fits, Chain-agree m (set_used m a) (a + b.size) bs (λ q le. ground arith) c)

split_block-Chain :
    (m : Store) (size a : ℕ) (b : Block) (bs : List Block)
    → Chain m a (b ∷ bs)
    → IsBlockSize size
    → size + 16 ≤ b.size
    → Chain
        (split_block m size a)
        a
        (record b { size = size } ∷ record { size = b.size - size; used = false } ∷ bs)
unfolding split_block
split_block-Chain m size a b bs (h, big, fits, c) min room =
    let e : a + size + (b.size - size) ≡ a + b.size = omega arith in
    (
      ground arith,
      min,
      omega arith,
      (
        rw e (ground arith),
        omega arith,
        omega arith,
        rw e (Chain-agree m (split_block m size a) (a + b.size) bs (λ q le. ground arith) c),
      ),
    )

-- Taking a block of the chain is `carve`, and writes nothing below the block.
pub take_block-carve :
    (m : Store) (size a : ℕ) (b : Block) (bs : List Block)
    → Chain m a (b ∷ bs)
    → IsBlockSize size
    → size < 2 ^ 31
    → ((take_block m size a).0 ≡ (carve size a b bs).0)
      × Chain (take_block m size a).1 a (carve size a b bs).1
unfolding take_block carve
take_block-carve m size a b bs (h, big, fits, c) min max = elim (Bool-cases (ltb b.size size)) [
  | inl small ↦ rw (h.size_ok, small) (refl, (h, big, fits, c))
  | inr large ↦ elim (Bool-cases (ltb (size * 2) b.size)) [
    | inl wide ↦
        rw (h.size_ok, large, no_wrap, wide)
          (
            here,
            set_used-Chain (split_block m size a) a (record b { size = size })
                (record { size = b.size - size; used = false } ∷ bs)
                (split_block-Chain m size a b bs (h, big, fits, c) min (ground arith)),
          )
    | inr tight ↦
        rw (h.size_ok, large, no_wrap, tight) (here, set_used-Chain m a b bs (h, big, fits, c))
  ]
]
  where
    no_wrap : size * 2 % word ≡ size * 2
    no_wrap = omega arith

    here : add32 a 16 ≡ a + 16
    here = omega arith

pub take_block-below :
    (m : Store) (size a q : ℕ) (b : Block) (bs : List Block)
    → Chain m a (b ∷ bs)
    → IsBlockSize size
    → size < 2 ^ 31
    → q < a
    → (take_block m size a).1 q ≡ m q
unfolding take_block split_block set_used
take_block-below m size a q b bs (h, big, fits, c) min max lt = ground arith

append_block-Chain :
    (m : Store) (a increment : ℕ) (b : Block)
    → Chain m a (b ∷ [])
    → IsBlockSize increment
    → a + b.size + increment < word
    → Chain (append_block m a increment) a (b ∷ record { size = increment; used = false } ∷ [])
unfolding append_block
append_block-Chain m a increment b (h, big, fits, c) inc room =
    (ground arith, big, fits, (ground arith, inc, room, tt))

widen_block-Chain :
    (m : Store) (a increment : ℕ) (b : Block)
    → Chain m a (b ∷ [])
    → IsBlockSize increment
    → a + b.size + increment < word
    → Chain (widen_block m a increment) a (record b { size = b.size + increment } ∷ [])
unfolding widen_block
widen_block-Chain m a increment b (h, big, fits, c) more room =
    (ground arith, omega arith, omega arith, tt)

pub carve-link : (size a e : ℕ) (b : Block) (bs : List Block) → link e (carve size a b bs).1 ≡ e
unfolding carve
carve-link size a e b bs = ground arith

append_block-below :
    (m : Store) (a increment q : ℕ)
    → a + (m a).size < word
    → q < a
    → append_block m a increment q ≡ m q
unfolding append_block
append_block-below m a increment q fits lt = ground arith

widen_block-below : (m : Store) (a increment q : ℕ) → q < a → widen_block m a increment q ≡ m q
unfolding widen_block
widen_block-below m a increment q lt = ground arith

-- What a call that works on the heap from `a` on leaves: the result and the chain that are
-- wanted, and everything below `a` as it was.
pub record Agrees (m : Store) (a : ℕ) (got : ℕ × Store) (want : ℕ × List Block) : Type 0 where
  pub result : got.0 ≡ want.0
  pub chain : Chain got.1 a want.1
  pub below : (q : ℕ) → q < a → got.1 q ≡ m q

module _ (m : Store) (size a increment : ℕ) (b : Block) (min : IsBlockSize size)
    (max : size < 2 ^ 31) (c : Chain m a (b ∷ [])) (more : IsBlockSize increment)
    (room : a + b.size + increment < word) where
  abbrev pub new_block : Block
  new_block = record { size = increment; used = false }

  pub append-take :
      let w = carve size (a + b.size) new_block [] in
      Agrees m a (take_block (append_block m a increment) size (a + b.size)) (w.0, b ∷ w.1)
  append-take =
      let appended = append_block-Chain m a increment b c more room in
      let taken =
        take_block-carve (append_block m a increment) size (a + b.size) new_block [] appended.3 min
          max in
      let under = λ (q : ℕ) (lt : q < a + b.size).
        take_block-below (append_block m a increment) size (a + b.size) q new_block [] appended.3
          min max lt in
      record {
        result = taken.0;
        chain =
            Chain-cons (append_block m a increment) _ a b new_block [] _ appended taken.1
              (carve-link size (a + b.size) (a + b.size) new_block [])
              (under a (omega (arith, c.1)));
        below = λ q lt.
            under q (omega arith)
            ∙ append_block-below m a increment q (omega (arith, c.0.size_ok)) lt;
      }

  pub widen-take :
      Agrees m a
        (take_block (widen_block m a increment) size a)
        (carve size a (record b { size = b.size + increment }) [])
  widen-take =
      let widened = widen_block-Chain m a increment b c more room in
      let taken = take_block-carve _ size a _ [] widened min max in
      record {
        result = taken.0;
        chain = taken.1;
        below = λ q lt.
            take_block-below _ size a q _ [] widened min max lt
            ∙ widen_block-below m a increment q lt;
      }
