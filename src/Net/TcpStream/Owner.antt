-- ===== src/Net/TcpStream/Owner.antt =====
-- uvio/net/tcp_stream.hpp: the class TcpStream as the owner of a socket, its moves and its destructor.
-- A socket that is closed is deleted by the callback of `uv_close`, so that it must be closed once.
use mathlib.Core.Path.{subst}
use native.Mathlib.Decide.{ℕ_discrete}
use uvio.Prelude.{
  ℕ, suc, ◌≤◌, ◌<◌, ◌≡◌, inl, inr, refl, sym, ap, ◌∙◌, true, false, ◌==◌, none, some, arith,
  if◌then◌else◌,
}
use uvio.Prelude.Family.{update, update_same, update_other}
use uvio.Prelude.Slots.{Slots, update-some, erased_some, moved_some}

-- `tcp_handle_` of each stream, by its socket, and how often each socket was closed.
pub record Streams : Type 0 where
  pub tcp_handle : Slots
  pub closings : ℕ → ℕ
  pub next : ℕ

-- `TcpStream(std::unique_ptr<uv_tcp_t>)`, of a new socket.
unfoldable pub open_stream : ℕ → Streams → Streams
open_stream i s = record s { tcp_handle = update s.tcp_handle i (some s.next); next = suc s.next }

-- `TcpStream(TcpStream &&)`.
unfoldable pub move_stream : ℕ → ℕ → Streams → Streams
move_stream i j s = record s { tcp_handle = update (update s.tcp_handle i (s.tcp_handle j)) j none }

-- `~TcpStream`, and the first part of `operator=`: `release` and `uv_close`.
unfoldable pub close_stream : ℕ → Streams → Streams
close_stream i s = elim (s.tcp_handle i) [
  | none ↦ s
  | some a ↦ record s {
    tcp_handle = update s.tcp_handle i none;
    closings = update s.closings a (suc (s.closings a));
  }
]

-- `operator=(TcpStream &&)`, which closes its own socket before it looks at `other`.
unfoldable pub assign_stream : ℕ → ℕ → Streams → Streams
unfolding close_stream move_stream
assign_stream i j s =
    let s' = close_stream i s in let moved = move_stream i j s' in if i == j then s' else moved

-- What the program may do with streams.
pub data Step : Streams → Streams → Type 0 where
  opens : {s : Streams} (i : ℕ) → s.tcp_handle i ≡ none → Step s (open_stream i s)
  moves : {s : Streams} (i j : ℕ) → s.tcp_handle i ≡ none → Step s (move_stream i j s)
  assigns : {s : Streams} (i j : ℕ) → Step s (assign_stream i j s)
  drops : {s : Streams} (i : ℕ) → Step s (close_stream i s)

abbrev pub no_streams : Streams
no_streams = record { tcp_handle = λ i. none; closings = λ a. 0; next = 0 }

pub data Reach : Streams → Type 0 where
  start : Reach no_streams
  later : {s s' : Streams} → Reach s → Step s s' → Reach s'

-- No two streams own a socket, none owns one that was closed, and none was closed twice.
pub record Sound (s : Streams) : Type 0 where
  pub alone : (i j a : ℕ) → s.tcp_handle i ≡ some a → s.tcp_handle j ≡ some a → i ≡ j
  pub below : (i a : ℕ) → s.tcp_handle i ≡ some a → a < s.next
  pub unclosed : (i a : ℕ) → s.tcp_handle i ≡ some a → s.closings a ≡ 0
  pub fresh : (a : ℕ) → s.next ≤ a → s.closings a ≡ 0
  pub once : (a : ℕ) → s.closings a ≤ 1

open-Sound : (i : ℕ) (s : Streams) → Sound s → Sound (open_stream i s)
unfolding open_stream
open-Sound i s k =
    let same : (a : ℕ) → some s.next ≡ some a → s.next ≡ a = λ a c. cc c in
    record {
      alone = λ x y a e e'. elim (update-some s.tcp_handle i (some s.next) x a e) [
        | inl (p, c) ↦ elim (update-some s.tcp_handle i (some s.next) y a e') [
          | inl (p', c') ↦ sym p ∙ p'
          | inr (n, c') ↦ absurd (omega (arith, k.below y a c', same a c))
        ]
        | inr (n, c) ↦ elim (update-some s.tcp_handle i (some s.next) y a e') [
          | inl (p', c') ↦ absurd (omega (arith, k.below x a c, same a c'))
          | inr (n', c') ↦ k.alone x y a c c'
        ]
      ];
      below = λ x a e. elim (update-some s.tcp_handle i (some s.next) x a e) [
        | inl (p, c) ↦ omega (arith, same a c)
        | inr (n, c) ↦ omega (arith, k.below x a c)
      ];
      unclosed = λ x a e. elim (update-some s.tcp_handle i (some s.next) x a e) [
        | inl (p, c) ↦ k.fresh a (omega (arith, same a c))
        | inr (n, c) ↦ k.unclosed x a c
      ];
      fresh = λ a h. k.fresh a (omega (arith, h));
      once = k.once;
    }

move-Sound : (i j : ℕ) (s : Streams) → Sound s → Sound (move_stream i j s)
unfolding move_stream
move-Sound i j s k = record {
  alone = λ x y a e e'.
      let (q, r) = moved_some s.tcp_handle i j x a e in
      let (q', r') = moved_some s.tcp_handle i j y a e' in
      elim r [
        | inl (p, c) ↦ elim r' [
          | inl (p', c') ↦ sym p ∙ p'
          | inr (n, c') ↦ absurd (q' (k.alone j y a c c'))
        ]
        | inr (n, c) ↦ elim r' [
          | inl (p', c') ↦ absurd (q (k.alone j x a c' c))
          | inr (n', c') ↦ k.alone x y a c c'
        ]
      ];
  below = λ x a e. elim ((moved_some s.tcp_handle i j x a e).1) [
    | inl (p, c) ↦ k.below j a c
    | inr (n, c) ↦ k.below x a c
  ];
  unclosed = λ x a e. elim ((moved_some s.tcp_handle i j x a e).1) [
    | inl (p, c) ↦ k.unclosed j a c
    | inr (n, c) ↦ k.unclosed x a c
  ];
  fresh = k.fresh;
  once = k.once;
}

-- The socket of a stream is closed.
closed-Sound :
    (i b : ℕ) (s : Streams)
    → s.tcp_handle i ≡ some b
    → Sound s
    → Sound (record s {
      tcp_handle = update s.tcp_handle i none;
      closings = update s.closings b (suc (s.closings b));
    })
closed-Sound i b s own k = record {
  alone = λ x y a e e'.
      k.alone x y a ((erased_some s.tcp_handle i x a e).1) ((erased_some s.tcp_handle i y a e').1);
  below = λ x a e. k.below x a ((erased_some s.tcp_handle i x a e).1);
  unclosed = λ x a e.
      let (q, c) = erased_some s.tcp_handle i x a e in
      update_other s.closings b (suc (s.closings b)) a (λ p. q (k.alone i x a (own ∙ ap some p) c))
      ∙ k.unclosed x a c;
  fresh = λ a h.
      update_other s.closings b (suc (s.closings b)) a
        (λ p. absurd (omega (arith, h, p, k.below i b own)))
      ∙ k.fresh a h;
  once = λ a. elim (ℕ_discrete b a) [
    | yes p ↦
        subst (λ t. t ≤ 1)
          (sym (
            sym (ap (update s.closings b (suc (s.closings b))) p)
            ∙ update_same s.closings b (suc (s.closings b))
            ∙ ap suc (k.unclosed i b own)))
          (omega arith)
    | no q ↦
        subst (λ t. t ≤ 1) (sym (update_other s.closings b (suc (s.closings b)) a q)) (k.once a)
  ];
}

close-Sound : (i : ℕ) (s : Streams) → Sound s → Sound (close_stream i s)
unfolding close_stream
close-Sound i s k =
    (elim (s.tcp_handle i) as (λ o. s.tcp_handle i ≡ o → Sound (close_stream i s)) [
      | none ↦ λ e. rw (e, close_stream) k
      | some b ↦ λ e. rw (e, close_stream) (closed-Sound i b s e k)
    ])
      refl

Step-Sound : {s s' : Streams} → Step s s' → Sound s → Sound s'
unfolding assign_stream
Step-Sound {s} (opens i e) k = open-Sound i s k
Step-Sound {s} (moves i j e) k = move-Sound i j s k
Step-Sound {s} (assigns i j) k =
    elim (i == j)
      as (λ b. Sound (if b then close_stream i s else move_stream i j (close_stream i s))) [
        | true ↦ close-Sound i s k
        | false ↦ move-Sound i j (close_stream i s) (close-Sound i s k)
      ]
Step-Sound {s} (drops i) k = close-Sound i s k

-- In every state that the program reaches by making, moving, assigning (to itself, too) and destroying
-- streams, no two streams own a socket, none owns one that was closed, and no socket was closed twice.
pub Reach-Sound : {s : Streams} → Reach s → Sound s
Reach-Sound start = record {
  alone = λ i j a e e'. absurd (cc e);
  below = λ i a e. absurd (cc e);
  unclosed = λ i a e. refl;
  fresh = λ a h. refl;
  once = λ a. omega arith;
}
Reach-Sound (later r s) = Step-Sound s (Reach-Sound r)
