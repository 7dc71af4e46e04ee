-- ===== src/Fifo/Tests.antt =====
-- A full cache of two entries.
use alibaba_ati_golang_sdk.Base.{ℕ, [], ◌∷◌, ◌-◌, length, drop, codes}
use alibaba_ati_golang_sdk.Base.Map.{Map, insert}
use alibaba_ati_golang_sdk.Fifo.{Fifo, empty, put}
use alibaba_ati_golang_sdk.Fifo.Refine.{Refines, put-Refines, empty-Refines}

abbrev one : Fifo ℕ
one = put 1 (codes "a") 1 empty

abbrev old : Map ℕ
old = (codes "a", 1) ∷ []

one-Refines : Refines one old
unfolding insert
one-Refines = put-Refines 1 (codes "a") 1 empty [] empty-Refines

put-Refines_example :
    Refines
      (put 1 (codes "b") 2 one)
      (drop (length (insert {V = ℕ} (codes "b") 2 old) - 1) (insert {V = ℕ} (codes "b") 2 old))
put-Refines_example = put-Refines 1 (codes "b") 2 one old one-Refines
