-- ===== src/Web/BuildLog/Polling.antt =====
-- What a client that polls the sink sees of what was written.
use mathlib.Core.Path.{subst}
use mathlib.Core.List.{append-nil, append_assoc}
use space_elevator.Base.{
  ℕ, zero, suc, ◌+◌, ◌-◌, ◌≤◌, ◌<◌, ◌≡◌, refl, sym, inl, inr, Bool, true, false, List, [], ◌∷◌,
  ◌++◌, map, ltb, if◌then◌else◌, length, drop, sift, Bytes, is_empty, arith, Bool-cases, All,
  All-drop, All-append, All-map, length-append, length-drop,
}
use space_elevator.Web.BuildLog.{
  BuildLogLine, BuildLog, build_log_max, output_line, stage_line, newest, append, stage, since,
}

-- One write to the sink.
pub data Write : Type 0 where
  output : Bytes → Write
  stage_change : Bytes → Write

unfoldable pub write : Write → BuildLog → BuildLog
write (output text) b = append text b
write (stage_change s) b = stage s b

unfoldable pub write_all : List Write → BuildLog → BuildLog
unfolding write
write_all [] b = b
write_all (w ∷ ws) b = write_all ws (write w b)

-- The lines that writes produce, numbered after `seq`, with none dropped.
pub produced : ℕ → List Write → List BuildLogLine
produced seq [] = []
produced seq (output text ∷ ws) =
    let skipped = produced seq ws in
    let rest = output_line (seq + 1) text ∷ produced (seq + 1) ws in
    if is_empty text then skipped else rest
produced seq (stage_change s ∷ ws) = stage_line (seq + 1) s ∷ produced (seq + 1) ws

-- No line is numbered above the counter.
pub record IsValid (b : BuildLog) : Type 0 where
  pub counted : All (λ l. l.seq ≤ b.seq) b.lines

newest-drop : (ls : List BuildLogLine) → newest ls ≡ drop (length ls - build_log_max) ls
newest-drop ls = elim (Bool-cases (ltb build_log_max (length ls))) [
  | inl e ↦ rw e
  | inr e ↦ let z : length ls - build_log_max ≡ 0 = ground arith in rw (e, z)
]

pub write-IsValid : (w : Write) (b : BuildLog) → IsValid b → IsValid (write w b)
unfolding write append stage
write-IsValid (output text) b v = elim (Bool-cases (is_empty text)) [
  | inl e ↦ rw e v
  | inr e ↦ rw e (record {
    counted = rw newest-drop (
        All-drop _ _ (b.lines ++ output_line (b.seq + 1) text ∷ []) (
          All-append _ b.lines _ (All-map (λ l h. omega arith) b.lines v.counted)
            (omega arith, tt)));
  })
]
write-IsValid (stage_change s) b v = record {
  counted =
      All-append _ b.lines _ (All-map (λ l h. omega arith) b.lines v.counted) (omega arith, tt);
}

-- `b` holds lines up to `start`, then the lines `new`, and no other.
record Holds (start : ℕ) (new : List BuildLogLine) (b : BuildLog) : Type 0 where
  old : List BuildLogLine
  lines : b.lines ≡ old ++ new
  before : All (λ l. l.seq ≤ start) old
  seq : b.seq ≡ start + length new

drop-append :
    (n : ℕ) (xs ys : List BuildLogLine) → n ≤ length xs → drop n (xs ++ ys) ≡ drop n xs ++ ys
drop-append zero xs ys h = refl
drop-append (suc n) [] ys h = absurd (omega arith)
drop-append (suc n) (x ∷ xs) ys h = drop-append n xs ys (omega arith)

newest-append :
    (old new : List BuildLogLine)
    → length new ≤ build_log_max
    → newest (old ++ new) ≡ drop (length old + length new - build_log_max) old ++ new
newest-append old new h = rw (newest-drop, length-append) (drop-append _ old new (omega arith))

module _ (start : ℕ) (new : List BuildLogLine) (b : BuildLog) (room : length new < build_log_max)
    (h : Holds start new b) where
  append-Holds :
      (text : Bytes)
      → is_empty text ≡ false
      → Holds start (new ++ output_line (b.seq + 1) text ∷ []) (append text b)
  unfolding append
  append-Holds text full =
      let line = output_line (b.seq + 1) text in
      let size : length (new ++ line ∷ []) ≡ length new + 1 =
        omega (arith, length-append new (line ∷ [])) in
      record {
        old = drop (length h.old + length (new ++ line ∷ []) - build_log_max) h.old;
        lines =
            rw (full, h.lines, append_assoc h.old new (line ∷ []))
              (newest-append h.old (new ++ line ∷ []) (omega (arith, size)));
        before = All-drop _ _ h.old h.before;
        seq = rw full (omega (arith, size, h.seq));
      }

  stage-Holds : (s : Bytes) → Holds start (new ++ stage_line (b.seq + 1) s ∷ []) (stage s b)
  unfolding stage
  stage-Holds s =
      let line = stage_line (b.seq + 1) s in
      record {
        old = h.old;
        lines = rw h.lines (append_assoc h.old new (line ∷ []));
        before = h.before;
        seq = omega (arith, length-append new (line ∷ []), h.seq);
      }

append-empty : (text : Bytes) (b : BuildLog) → is_empty text ≡ true → append text b ≡ b
unfolding append
append-empty text b e = rw e

append-seq : (text : Bytes) (b : BuildLog) → is_empty text ≡ false → (append text b).seq ≡ b.seq + 1
unfolding append
append-seq text b e = rw e

stage-seq : (s : Bytes) (b : BuildLog) → (stage s b).seq ≡ b.seq + 1
unfolding stage
stage-seq s b = refl

length-one_more :
    (new : List BuildLogLine) (l : BuildLogLine) → length (new ++ l ∷ []) ≡ length new + 1
length-one_more new l = omega (arith, length-append new (l ∷ []))

write_all-Holds :
    (start : ℕ) (ws : List Write) (new : List BuildLogLine) (b : BuildLog)
    → length new + length ws ≤ build_log_max
    → Holds start new b
    → Holds start (new ++ produced b.seq ws) (write_all ws b)
unfolding write_all produced
write_all-Holds start [] new b room h = rw append-nil h
write_all-Holds start (output text ∷ ws) new b room h = elim (Bool-cases (is_empty text)) [
  | inl e ↦ rw (e, append-empty text b e) (write_all-Holds start ws new b (omega arith) h)
  | inr e ↦
      let line = output_line (b.seq + 1) text in
      rw e (
        subst (λ t. Holds start (new ++ line ∷ produced t ws) (write_all ws (append text b)))
          (append-seq text b e)
          (rw (append_assoc new (line ∷ [])) at (
            write_all-Holds start ws (new ++ line ∷ []) (append text b)
              (omega (arith, length-one_more new line))
              (append-Holds start new b (omega arith) h text e))))
]
write_all-Holds start (stage_change s ∷ ws) new b room h =
    let line = stage_line (b.seq + 1) s in
    subst (λ t. Holds start (new ++ line ∷ produced t ws) (write_all ws (stage s b)))
      (stage-seq s b)
      (rw (append_assoc new (line ∷ [])) at (
        write_all-Holds start ws (new ++ line ∷ []) (stage s b)
          (omega (arith, length-one_more new line)) (stage-Holds start new b (omega arith) h s)))

sift-old :
    (start : ℕ) (ls : List BuildLogLine)
    → All (λ l. l.seq ≤ start) ls
    → sift (λ l. ltb start l.seq) ls ≡ []
unfolding sift
sift-old start [] h = refl
sift-old start (l ∷ ls) h = ground (arith, sift-old start ls h.1)

sift-new :
    (start : ℕ) (ls : List BuildLogLine)
    → All (λ l. start < l.seq) ls
    → sift (λ l. ltb start l.seq) ls ≡ ls
unfolding sift
sift-new start [] h = refl
sift-new start (l ∷ ls) h = ground (arith, sift-new start ls h.1)

sift-append :
    (p : BuildLogLine → Bool) (xs ys : List BuildLogLine)
    → sift p (xs ++ ys) ≡ sift p xs ++ sift p ys
unfolding sift
sift-append p [] ys = refl
sift-append p (x ∷ xs) ys = ground (arith, sift-append p xs ys)

produced-new :
    (start k : ℕ) (ws : List Write) → start ≤ k → All (λ l. start < l.seq) (produced k ws)
unfolding produced
produced-new start k [] h = tt
produced-new start k (output text ∷ ws) h = elim (Bool-cases (is_empty text)) [
  | inl e ↦ rw e (produced-new start k ws h)
  | inr e ↦ rw e (omega arith, produced-new start (k + 1) ws (omega arith))
]
produced-new start k (stage_change s ∷ ws) h =
    (omega arith, produced-new start (k + 1) ws (omega arith))

-- A client that is up to date polls again after at most 500 writes: it gets exactly the lines that
-- they produced (an empty output line produces none), in order and numbered without gaps, and goes on
-- from the number of the last.
pub since-write_all :
    (b : BuildLog) (ws : List Write)
    → IsValid b
    → length ws ≤ build_log_max
    → since b.seq (write_all ws b) ≡ (produced b.seq ws, b.seq + length (produced b.seq ws))
unfolding since
since-write_all b ws v room =
    let start : Holds b.seq [] b = record {
      old = b.lines;
      lines = sym (append-nil b.lines);
      before = v.counted;
      seq = omega arith;
    } in
    let end = write_all-Holds b.seq ws [] b (omega arith) start in
    rw (end.lines, end.seq, sift-append, sift-old b.seq end.old end.before)
      (rw (sift-new b.seq (produced b.seq ws) (produced-new b.seq b.seq ws (omega arith))))

-- A non-empty output line leaves at most 500 lines in the sink, whatever was there before.
pub append_bounded :
    (text : Bytes) (b : BuildLog)
    → is_empty text ≡ false
    → length (append text b).lines ≤ build_log_max
unfolding append
append_bounded text b e =
    rw (e, newest-drop)
      (omega (
        arith,
        length-drop (length (b.lines ++ output_line (b.seq + 1) text ∷ []) - build_log_max)
            (b.lines ++ output_line (b.seq + 1) text ∷ []),
      ))

stages-length :
    (stages : List Bytes) (b : BuildLog)
    → length (write_all (map stage_change stages) b).lines ≡ length b.lines + length stages
unfolding write_all stage
stages-length [] b = omega arith
stages-length (s ∷ ss) b =
    omega
      (arith, stages-length ss (stage s b), length-append b.lines (stage_line (b.seq + 1) s ∷ []))

-- While no output line comes and the sink is not reset, stage changes drop nothing, so that the sink
-- grows by one line for each of them, past any bound; the next output line that is not empty cuts it
-- to 500 lines.
pub stages_unbounded :
    (stages : List Bytes) (b : BuildLog)
    → let b' = write_all (map stage_change stages) b in
      (length b'.lines ≡ length b.lines + length stages)
      × ((text : Bytes) → is_empty text ≡ false → length (append text b').lines ≤ 500)
stages_unbounded stages b =
    (stages-length stages b, λ text. append_bounded text (write_all (map stage_change stages) b))
