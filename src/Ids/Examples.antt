-- ===== src/Ids/Examples.antt =====
-- Two threads at the allocator: both read the same number, and one of them gets the first id.
use atsf4g_co.Base.{ℕ, ◌*◌, ◌^◌, ◌<◌, refl, [], ◌∷◌, arith}
use atsf4g_co.Ids.{
  idle, loaded, swapping, Allocator, set_pc, create, exchange, load, take_time, win, lose, Reach,
  created, step,
}
use atsf4g_co.Ids.Unique.{IsDescending, allocate-IsDescending}

-- 1000 seconds after the epoch
abbrev first_id : ℕ
first_id = 1000 * 2 ^ 32

abbrev both_loaded : Allocator
both_loaded = set_pc (set_pc (create 1000) 0 (loaded 255)) 1 (loaded 255)

abbrev first_wins : Allocator
first_wins = exchange (set_pc both_loaded 0 (swapping 255 first_id)) 0 first_id

abbrev second_loses : Allocator
second_loses = set_pc (set_pc first_wins 1 (swapping 255 first_id)) 1 idle

second_loses_Reach : Reach (2 ^ 32) 1000 second_loses
second_loses_Reach =
    step
      (step
        (step
          (step
            (step (step (created refl (omega arith)) (load 0 refl) (omega arith)) (load 1 refl)
              (omega arith))
            (take_time 0 255 refl refl (omega arith)) (omega arith))
          (win 0 255 first_id refl refl) (omega arith))
        (take_time 1 255 refl refl (omega arith)) (omega arith))
      (lose 1 255 first_id refl) (omega arith)

allocate-IsDescending_example :
    IsDescending second_loses.seq_alloc (first_id ∷ []) × (second_loses.seq_alloc < 2 ^ 64)
allocate-IsDescending_example = allocate-IsDescending 1000 second_loses second_loses_Reach
