-- ===== src/Pipe/Safety.antt =====
-- pipe.c: what holds of every pair that a run reaches.
use libc_jss.Base.{Bytes, ◌≡◌, refl, ◌∙◌, ◌⊎◌, inl, inr, Bool, true, false, List, [], arith}
use libc_jss.Netsocket.{is_open, Netsocket}
use libc_jss.Pipe.{Pair, Remote}
use libc_jss.Pipe.Program.{Reachable}
use libc_jss.Pipe.Alive.{sents, IsOff}
use libc_jss.Pipe.Closes.{Kept, Joined, Over, has_exited, waiting, joined, over}
use libc_jss.Pipe.Turns.{Reachable-Stands}

-- Not freed, in no callback, and with no destroy that is put off.
abbrev pub IsIdle : Netsocket → Type 0
IsIdle s = (s.freed ≡ false) × (s.in_callback ≡ 0) × (s.destroy_request ≡ false)

abbrev pub IsGone : Netsocket → Type 0
IsGone s = (s.freed ≡ true) × IsOff s × (is_open s.sock ≡ false)

-- What a pair that is joined is between two turns.
joined_pair :
    (remote : Remote) (p : Pair) → Reachable remote p → p.joined ≡ true → Joined p ⊎ Over p
joined_pair remote p r j = elim (Reachable-Stands remote p r) [
  | has_exited k m ↦ absurd (ground (arith, m, j))
  | waiting h ↦ absurd (ground (arith, h.no_back, j))
  | joined h ↦ inl h
  | over h ↦ inr h
]

-- Between two turns, once a pair is joined, it has not ended the program, the string of `main` was
-- never used as an object, and each of its ends is freed exactly when the other is: either both
-- are not freed, in no callback, and no destroy is put off, or both are freed and have no socket
-- and no active watcher. So no turn and no callback meets an end whose `userdata` is freed.
pub Reachable-together :
    (remote : Remote) (p : Pair)
    → Reachable remote p
    → p.joined ≡ true
    → (p.exited ≡ false)
      × (p.wild ≡ false)
      × ((IsIdle p.front × IsIdle p.back) ⊎ (IsGone p.front × IsGone p.back))
Reachable-together remote p r j = elim (joined_pair remote p r j) [
  | inl h ↦ (
    h.runs,
    h.tame,
    inl (
      (h.front.not_freed, h.front.depth, h.front.asked),
      (h.back.not_freed, h.back.depth, h.back.asked),
    ),
  )
  | inr h ↦
      (h.runs, h.tame, inr ((h.front.0, h.front.2, h.front.3), (h.back.0, h.back.2, h.back.3)))
]

Kept_lem :
    (o : Bool) (words read : List Bytes)
    → Kept o words read
    → (words ≡ read) ⊎ ((words ≡ []) × (o ≡ false))
Kept_lem true words read h = inl h
Kept_lem false words read h = inr (h, refl)

-- Between two turns, once a pair is joined, the bytes that were given
-- to `send` at the front end are those that were read at the back end, in the same pieces and the
-- same order; and the back end was given all that was read at the front end, or it has no socket and was
-- never given anything.
pub Reachable-forwards :
    (remote : Remote) (p : Pair)
    → Reachable remote p
    → p.joined ≡ true
    → (sents p.front.log ≡ p.read_back)
      × ((sents p.back.log ≡ p.read_front)
          ⊎ ((sents p.back.log ≡ []) × (is_open p.back.sock ≡ false)))
Reachable-forwards remote p r j = elim (joined_pair remote p r j) [
  | inl h ↦ (
    h.front.said,
    elim (Kept_lem h.opened h.words p.read_front h.kept) [
      | inl k ↦ inl (h.back.said ∙ k)
      | inr (k, o) ↦ inr (h.back.said ∙ k, h.back.opened ∙ o)
    ],
  )
  | inr h ↦
      (h.front.1, elim h.kept [ inl k ↦ inl (h.back.1 ∙ k) | inr k ↦ inr (h.back.1 ∙ k, h.back.3) ])
]
