-- ===== src/Checkpoint/Copies.antt =====
-- The chunk loop of `_do_flush` (tempo/checkpoint_manager.py) against a copy of the whole file.
use working_tempo.Base.{
  ℕ, zero, suc, ◌+◌, ◌<◌, ◌≡◌, ◌∙◌, sym, ap, ◌≢◌, ◌⊎◌, inl, inr, refl, Bool, true, false, List, [],
  ◌∷◌, ◌++◌, arith, Bool-cases, length, All, take, drop, take-append-drop, length-drop,
}
use mathlib.Core.List.{append_assoc, append-nil}
use working_tempo.Checkpoint.{Bytes, Manager}
use working_tempo.Checkpoint.Flush.{Attempt, start_copy, copy_file}
use working_tempo.Checkpoint.Chunks.{
  Round, Copy, resize_chunk, hard_block, soft_throttle, throttle, pace, write_chunk, End, done,
  missing, running, prepare, copy_loop,
}

-- What the pacing leaves alone: the file's bytes; and the chunk stays positive.
abbrev Keeps : Copy → Copy → Type 0
Keeps c d = (d.left ≡ c.left) × (d.copied ≡ c.copied) × (0 < d.chunk_bytes)

resize_chunk-Keeps :
    (on : Bool) (r : Round) (c : Copy)
    → 0 < c.chunk_bytes
    → Keeps c (resize_chunk on r.resized_at c)
unfolding resize_chunk
resize_chunk-Keeps on r c h = ground (arith)

hard_block-Keeps :
    (waits : List Bool) (c : Copy) → 0 < c.chunk_bytes → Keeps c (hard_block waits c).0
unfolding hard_block
hard_block-Keeps [] c h = (refl, refl, h)
hard_block-Keeps (true ∷ waits) c h = (refl, refl, h)
hard_block-Keeps (false ∷ waits) c h = hard_block-Keeps waits _ h

pace-Keeps : (r : Round) (c : Copy) → 0 < c.chunk_bytes → Keeps c (pace r c).0
unfolding pace throttle soft_throttle
pace-Keeps r c h = ground (arith, hard_block-Keeps r.waits c h)

prepare-Keeps :
    (adaptive monitored : Bool) (r : Round) (c : Copy)
    → 0 < c.chunk_bytes
    → Keeps c (prepare adaptive monitored r c).0
prepare-Keeps adaptive false r c h = (refl, refl, h)
prepare-Keeps adaptive true r c h =
    let one = resize_chunk-Keeps adaptive r c h in
    let two = pace-Keeps r (resize_chunk adaptive r.resized_at c) one.2 in
    (two.0 ∙ one.0, two.1 ∙ one.1, two.2)

List-cases : (xs : Bytes) → (xs ≡ []) ⊎ ((b : ℕ) × (bs : Bytes) × (xs ≡ b ∷ bs))
List-cases [] = inl refl
List-cases (b ∷ bs) = inr (b, bs, refl)

take-empty : (n : ℕ) (xs : Bytes) → 0 < n → take n xs ≡ [] → xs ≡ []
take-empty zero xs h e = absurd (omega arith)
take-empty (suc n) [] h e = refl
take-empty (suc n) (x ∷ xs) h e = absurd cc

drop-shorter : (n b : ℕ) (bs xs : Bytes) → take n xs ≡ b ∷ bs → length (drop n xs) < length xs
drop-shorter zero b bs xs e = absurd cc
drop-shorter (suc n) b bs [] e = absurd cc
drop-shorter (suc n) b bs (x ∷ xs) e = omega (arith, length-drop n xs)

-- What the loop has written and what it has not read yet is the file; and it has an end.
record Copies (c : Copy) (r : Copy × End) : Type 0 where
  whole_file : r.0.copied ++ r.0.left ≡ c.copied ++ c.left
  ended : r.1 ≢ running
  found : r.1 ≢ missing
  at_end : (r.1 ≢ done) ⊎ (r.0.left ≡ [])
  chunk : 0 < r.0.chunk_bytes

module _ (adaptive monitored : Bool) (rounds : ℕ → Round) where
  written :
      (i b : ℕ) (bs : Bytes) (c ready : Copy) (r : Copy × End)
      → Keeps c ready
      → take ready.chunk_bytes ready.left ≡ b ∷ bs
      → Copies (write_chunk (b ∷ bs) (rounds i).write_time ready) r
      → Copies c r
  unfolding write_chunk
  written i b bs c ready r k e h =
      let parts =
        append_assoc c.copied (take ready.chunk_bytes c.left) (drop ready.chunk_bytes c.left) in
      let read = take-append-drop ready.chunk_bytes c.left in
      record {
        whole_file = cc (h.whole_file, parts, read, e, k.0, k.1);
        ended = h.ended;
        found = h.found;
        at_end = h.at_end;
        chunk = h.chunk;
      }

  copy_loop-Copies :
      (fuel i : ℕ) (c : Copy)
      → 0 < c.chunk_bytes
      → length c.left < fuel
      → Copies c (copy_loop adaptive monitored rounds fuel i c)
  unfolding copy_loop write_chunk
  copy_loop-Copies zero i c h k = absurd (omega arith)
  copy_loop-Copies (suc fuel) i c h k =
      let q = prepare-Keeps adaptive monitored (rounds i) c h in
      let ready = (prepare adaptive monitored (rounds i) c).0 in
      elim (Bool-cases (prepare adaptive monitored (rounds i) c).1) [
        | inl stop ↦
            rw (stop, copy_loop)
              (record {
                whole_file = cc (q.0, q.1);
                ended = λ e. cc;
                found = λ e. cc;
                at_end = inl (λ e. cc);
                chunk = q.2;
              })
        | inr go ↦ elim (List-cases (take ready.chunk_bytes ready.left)) [
          | inl none ↦
              rw (go, copy_loop, none)
                (record {
                  whole_file = cc (q.0, q.1);
                  ended = λ e. cc;
                  found = λ e. cc;
                  at_end = inr (take-empty _ _ q.2 none);
                  chunk = q.2;
                })
          | inr (b, bs, more) ↦ elim (Bool-cases (rounds i).writes) [
            | inl ok ↦
                rw (go, copy_loop, more, ok)
                  (written i b bs c ready _ q more (
                    copy_loop-Copies fuel (i + 1) (write_chunk (b ∷ bs) (rounds i).write_time ready)
                      q.2
                      (let len : length ready.left ≡ length c.left = ap length q.0 in
                        omega (arith, drop-shorter _ _ _ _ more, len))))
            | inr bad ↦
                rw (go, copy_loop, more, bad)
                  (record {
                    whole_file = cc (q.0, q.1);
                    ended = λ e. cc;
                    found = λ e. cc;
                    at_end = inl (λ e. cc);
                    chunk = q.2;
                  })
          ]
        ]
      ]

-- A round in which the worker is not stopped and the write does not raise.
abbrev pub IsSmooth : Round → Type 0
IsSmooth r = All (λ stop. stop ≡ false) r.waits × (r.writes ≡ true)

pub hard_block-goes :
    (waits : List Bool) (c : Copy)
    → All (λ stop. stop ≡ false) waits
    → ((hard_block waits c).1 ≡ false)
      × ((hard_block waits c).0.throttle_waits ≡ c.throttle_waits + length waits)
unfolding hard_block
hard_block-goes [] c h = (refl, omega arith)
hard_block-goes (true ∷ waits) c h = absurd cc
hard_block-goes (false ∷ waits) c h =
    let rest = hard_block-goes waits (record c { throttle_waits = c.throttle_waits + 1 }) h.1 in
    (rest.0, omega (arith, rest.1))

prepare-goes :
    (adaptive monitored : Bool) (r : Round) (c : Copy)
    → IsSmooth r
    → (prepare adaptive monitored r c).1 ≡ false
unfolding pace throttle
prepare-goes adaptive false r c h = refl
prepare-goes adaptive true r c h =
    ground (arith, hard_block-goes r.waits (resize_chunk adaptive r.resized_at c) h.0)

copy_loop-done :
    (adaptive monitored : Bool) (rounds : ℕ → Round) (fuel i : ℕ) (c : Copy)
    → ((j : ℕ) → IsSmooth (rounds j))
    → ((copy_loop adaptive monitored rounds fuel i c).1 ≡ running)
      ⊎ ((copy_loop adaptive monitored rounds fuel i c).1 ≡ done)
unfolding copy_loop
copy_loop-done adaptive monitored rounds zero i c h = inl refl
copy_loop-done adaptive monitored rounds (suc fuel) i c h =
    let go = prepare-goes adaptive monitored (rounds i) c (h i) in
    let ready = (prepare adaptive monitored (rounds i) c).0 in
    elim (List-cases (take ready.chunk_bytes ready.left)) [
      | inl none ↦ rw (go, copy_loop, none) (inr refl)
      | inr (b, bs, more) ↦
          let ok = (h i).1 in
          rw (go, copy_loop, more, ok)
            (copy_loop-done adaptive monitored rounds fuel (i + 1)
              (write_chunk (b ∷ bs) (rounds i).write_time ready) h)
    ]

-- The loop from the start of a file, on the fuel that `_do_flush` gives it: what it has written is
-- the start of the file, and all of it where the loop ends by itself.
pub record IsCopy (content : Bytes) (chunk : ℕ) (r : Copy × End) : Type 0 where
  pub rest : r.0.copied ++ r.0.left ≡ content
  pub ended : r.1 ≢ running
  pub found : r.1 ≢ missing
  pub complete : (r.1 ≢ done) ⊎ (r.0.copied ≡ content)
  pub chunk_pos : 0 < r.0.chunk_bytes

pub copy_file-IsCopy :
    (a : Attempt) (content : Bytes) (m : Manager)
    → 0 < m.chunk_bytes
    → IsCopy content m.chunk_bytes (copy_file a content m)
unfolding copy_file
copy_file-IsCopy a content m h =
    let c =
      copy_loop-Copies m.adaptive_chunk m.phase_monitor a.rounds (suc (length content)) 0
        (start_copy content m) h (omega arith) in
    record {
      rest = c.whole_file;
      ended = c.ended;
      found = c.found;
      complete = elim c.at_end [
        | inl other ↦ inl other
        | inr read ↦ inr (sym (append-nil _) ∙ ap (◌++◌ _) (sym read) ∙ c.whole_file)
      ];
      chunk_pos = c.chunk;
    }

pub copy_file-done :
    (a : Attempt) (content : Bytes) (m : Manager)
    → 0 < m.chunk_bytes
    → ((i : ℕ) → IsSmooth (a.rounds i))
    → (copy_file a content m).1 ≡ done
unfolding copy_file
copy_file-done a content m h smooth =
    elim (copy_loop-done m.adaptive_chunk m.phase_monitor a.rounds (suc (length content)) 0
      (start_copy content m) smooth) [
        | inl out ↦ absurd ((copy_file-IsCopy a content m h).ended out)
        | inr end ↦ end
      ]
