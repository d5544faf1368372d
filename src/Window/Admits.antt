-- ===== src/Window/Admits.antt =====
-- src/lib/redis-sliding-window.ts: the requests that are let through, over time.
use ss_backend.Common.{
  ℕ, ◌+◌, ◌≤◌, ◌<◌, ◌≡◌, refl, false, ◌&&◌, List, [], ◌∷◌, ◌++◌, arith, ltb, leb, if◌then◌else◌,
  inl, inr, Bool-cases, length, count, count-append,
}
use ss_backend.Window.{pruned, script}

-- The scores of the key, and the times of all requests that were admitted.
pub record Usage : Type 0 where
  pub scores : List ℕ
  pub log : List ℕ

-- A request at a time.
unfoldable pub ask : ℕ → ℕ → ℕ → Usage → Usage
ask window_ms max_requests now u =
    let (reply, scores') = script window_ms max_requests now u.scores in
    record { scores = scores'; log = if reply.admitted then u.log ++ (now ∷ []) else u.log }

unfoldable pub ask_all : ℕ → ℕ → List ℕ → Usage → Usage
unfolding ask
ask_all window_ms max_requests [] u = u
ask_all window_ms max_requests (t ∷ ts) u =
    ask_all window_ms max_requests ts (ask window_ms max_requests t u)

-- Times that do not go back, from `last` on.
abbrev pub IsOrdered : ℕ → List ℕ → Type 0
IsOrdered last [] = Unit
IsOrdered last (t ∷ ts) = (last ≤ t) × IsOrdered t ts

-- The times within the window that ends at a moment.
abbrev pub in_window : ℕ → ℕ → List ℕ → ℕ
in_window window_ms end = count (λ s. leb s end && ltb end (s + window_ms))

module _ (w : ℕ) where
  in_window-pruned :
      (now end : ℕ) (ss : List ℕ)
      → now ≤ end
      → in_window w end (pruned w now ss) ≡ in_window w end ss
  in_window-pruned now end [] h = refl
  in_window-pruned now end (s ∷ ss) h = ground (arith, in_window-pruned now end ss h)

  in_window-le-length : (end : ℕ) (ss : List ℕ) → in_window w end ss ≤ length ss
  in_window-le-length end [] = omega arith
  in_window-le-length end (s ∷ ss) = ground (arith, in_window-le-length end ss)

  module _ (max : ℕ) where
    -- No window had too many, and what was admitted lately is still in the set.
    record IsWithin (last : ℕ) (u : Usage) : Type 0 where
      limited : (end : ℕ) → in_window w end u.log ≤ max
      held : (end : ℕ) → last ≤ end → in_window w end u.log ≤ in_window w end u.scores

    denied-IsWithin :
        (last now : ℕ) (u : Usage)
        → last ≤ now
        → IsWithin last u
        → IsWithin now (record { scores = pruned w now u.scores; log = u.log })
    denied-IsWithin last now u h v = record {
      limited = v.limited;
      held = λ end q. omega (arith, v.held end (omega arith), in_window-pruned now end u.scores q);
    }

    admitted-IsWithin :
        (last now : ℕ) (u : Usage)
        → last ≤ now
        → length (pruned w now u.scores) < max
        → IsWithin last u
        → IsWithin now
            (record { scores = pruned w now u.scores ++ (now ∷ []); log = u.log ++ (now ∷ []) })
    admitted-IsWithin last now u h lt v = record {
      limited = λ end. elim (Bool-cases (ltb end now)) [
        | inl early ↦ ground (
          arith,
          v.limited end,
          count-append (λ s. leb s end && ltb end (s + w)) u.log (now ∷ []),
        )
        | inr late ↦ ground (
          arith,
          v.held end (omega (arith, reached end late)),
          in_window-pruned now end u.scores (reached end late),
          in_window-le-length end (pruned w now u.scores),
          count-append (λ s. leb s end && ltb end (s + w)) u.log (now ∷ []),
        )
      ];
      held = λ end q. omega (
        arith,
        v.held end (omega arith),
        in_window-pruned now end u.scores q,
        count-append (λ s. leb s end && ltb end (s + w)) u.log (now ∷ []),
        count-append (λ s. leb s end && ltb end (s + w)) (pruned w now u.scores) (now ∷ []),
      );
    }
      where
        reached : (end : ℕ) → ltb end now ≡ false → now ≤ end
        reached end e = ground arith

    ask-IsWithin :
        (last now : ℕ) (u : Usage) → last ≤ now → IsWithin last u → IsWithin now (ask w max now u)
    unfolding ask script
    ask-IsWithin last now u h v = elim (Bool-cases (leb max (length (pruned w now u.scores)))) [
      | inl full ↦ rw full (denied-IsWithin last now u h v)
      | inr room ↦ rw room (admitted-IsWithin last now u h (ground arith) v)
    ]

    ask_all-IsWithin :
        (last : ℕ) (ts : List ℕ) (u : Usage)
        → IsOrdered last ts
        → IsWithin last u
        → (end : ℕ) → in_window w end (ask_all w max ts u).log ≤ max
    unfolding ask_all
    ask_all-IsWithin last [] u o v = v.limited
    ask_all-IsWithin last (t ∷ ts) u (h, o) v =
        ask_all-IsWithin t ts (ask w max t u) o (ask-IsWithin last t u h v)

-- However many requests are made, at times that do not go back, of those that the script lets through
-- at most the maximum lie in any window, wherever it ends, if the key starts empty.
pub window_limited :
    (window_ms max_requests : ℕ) (ts : List ℕ) (end : ℕ)
    → IsOrdered 0 ts
    → in_window window_ms end
        (ask_all window_ms max_requests ts (record { scores = []; log = [] })).log
      ≤ max_requests
window_limited window_ms max_requests ts end o =
    ask_all-IsWithin window_ms max_requests 0 ts (record { scores = []; log = [] }) o
      (record { limited = λ _. omega arith; held = λ _ _. omega arith }) end
