-- ===== src/Nats/Moves.antt =====
-- The worlds that a client of the bucket sees between its calls, where other clients act too.
use cache.Prelude.{◌≤◌, All, Option, List, [], ◌∷◌, Bytes, arith}
use cache.Nats.Bucket.{Entry, KeyValue, Interlude, World, after, RevisionLaws}

module _ (kv : KeyValue) (live : kv.State → Bytes → Option Entry)
    (Later : kv.State → kv.State → Type 0) (laws : RevisionLaws kv live Later) where
  -- Other clients act by calls of their own.
  abbrev pub IsFair : World kv → Type 0
  IsFair w = All (λ (i : Interlude kv). (b : kv.State) → Later b (i.others b)) w.interludes

  pub record Moves (w v : World kv) : Type 0 where
    pub later : Later w.bucket v.bucket
    pub clock : w.now ≤ v.now
    pub fair : IsFair v

  pub Moves-trans : (u v w : World kv) → Moves u v → Moves v w → Moves u w
  Moves-trans u v w a b = record {
    later = laws.later_trans u.bucket v.bucket w.bucket a.later b.later;
    clock = omega (arith, a.clock, b.clock);
    fair = b.fair;
  }

  pub Moves-refl : (w : World kv) → IsFair w → Moves w w
  Moves-refl w h = record { later = laws.later_refl w.bucket; clock = omega arith; fair = h }

  pub after-Moves :
      (is : List (Interlude kv)) (w : World kv)
      → IsFair (record w { interludes = is })
      → Moves w (after kv is w)
  after-Moves [] w h = record { later = laws.later_refl w.bucket; clock = omega arith; fair = tt }
  after-Moves (i ∷ is) w h = record { later = h.0 w.bucket; clock = omega arith; fair = h.1 }

  -- The world when a call is made, and after it.
  abbrev pub met : World kv → World kv
  met w = after kv w.interludes w

  abbrev pub called : {A : Type 0} → (kv.State → A × kv.State) → World kv → World kv
  called f w = record (met w) { bucket = (f (met w).bucket).1 }

  pub called-Moves :
      {A : Type 0} (f : kv.State → A × kv.State) (w : World kv)
      → ((b : kv.State) → Later b (f b).1)
      → IsFair w
      → Moves w (called f w)
  called-Moves f w h fair =
      let m = after-Moves w.interludes w fair in
      record {
        later =
            laws.later_trans w.bucket (met w).bucket (f (met w).bucket).1 m.later
              (h (met w).bucket);
        clock = m.clock;
        fair = m.fair;
      }
