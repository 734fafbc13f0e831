-- ===== src/Io/Ports/Ends.antt =====
-- A program over a reader and a writer that has come to its end.
use uvio.Prelude.{ℕ, ◌≡◌, sym, ap, ◌∙◌, List, ◌++◌, append_assoc}
use uvio.Common.Result.{Run, done}
use uvio.Io.Ports.{ByteReader, ByteWriter}

module _ (R : ByteReader) (W : ByteWriter) where
  -- A run that ends: it leaves `more` to be read, and all that was written is sent.
  pub record Ends (run : Run (R.State × W.State)) (more out : List ℕ) : Type 0 where
    pub reader : R.State
    pub writer : W.State
    pub ends : run ≡ done (reader, writer)
    pub left : R.pending reader ≡ more
    pub sent : W.sent writer ≡ out

-- One more text that was sent, behind `a` and before `d` and `e`.
pub one_more : (a b c d e : List ℕ) → b ≡ a ++ c → b ++ (d ++ e) ≡ a ++ ((c ++ d) ++ e)
one_more a b c d e h =
    ap (λ t. t ++ (d ++ e)) h
    ∙ append_assoc a c (d ++ e)
    ∙ ap (λ t. a ++ t) (sym (append_assoc c d e))
