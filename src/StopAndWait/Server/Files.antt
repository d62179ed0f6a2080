-- ===== src/StopAndWait/Server/Files.antt =====
-- N-Channel-StopNWait/server.c: what `fseek` and `fwrite` leave in the output file.
use network_programming_c.Prelude.{
  ℕ, zero, suc, ◌≡◌, refl, ap, ◌∙◌, List, [], ◌∷◌, ◌++◌, ◌==◌, max, if◌then◌else◌, append-nil,
  append_assoc, arith, length, length-append, get_or,
}
use network_programming_c.StopAndWait.Server.{put, write_at}

put_end : (f : List ℕ) (b : ℕ) → put f (length f) b ≡ f ++ b ∷ []
unfolding put
put_end [] b = refl
put_end (x ∷ f) b = ap (λ l. x ∷ l) (put_end f b)

-- A write at the end of the file appends.
pub write_at_end : (f bs : List ℕ) (p : ℕ) → p ≡ length f → write_at f p bs ≡ f ++ bs
unfolding write_at
write_at_end f [] p e = rw append-nil
write_at_end f (b ∷ bs) p e =
    rw (e, put_end f b)
      (write_at_end (f ++ b ∷ []) bs (suc (length f)) (omega (arith, length-append f (b ∷ [])))
        ∙ append_assoc f (b ∷ []) bs)

pub length-put : (f : List ℕ) (p b : ℕ) → length (put f p b) ≡ max (length f) (suc p)
unfolding put
length-put [] zero b = omega arith
length-put [] (suc p) b = omega (arith, length-put [] p b)
length-put (x ∷ f) zero b = omega arith
length-put (x ∷ f) (suc p) b = omega (arith, length-put f p b)

pub get_or-put :
    (f : List ℕ) (p b i : ℕ) → get_or (put f p b) i 0 ≡ (if i == p then b else get_or f i 0)
unfolding put
get_or-put [] zero b zero = refl
get_or-put [] zero b (suc i) = ground arith
get_or-put [] (suc p) b zero = ground arith
get_or-put [] (suc p) b (suc i) = ground (arith, get_or-put [] p b i)
get_or-put (x ∷ f) zero b zero = refl
get_or-put (x ∷ f) zero b (suc i) = ground arith
get_or-put (x ∷ f) (suc p) b zero = ground arith
get_or-put (x ∷ f) (suc p) b (suc i) = ground (arith, get_or-put f p b i)
