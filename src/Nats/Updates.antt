-- ===== src/Nats/Updates.antt =====
-- The loop of Increment in driver/natscache/store.go between other clients of the bucket.
use cache.Prelude.{
  ℕ, zero, suc, ◌≤◌, ◌≡◌, ◌⊎◌, inl, inr, refl, sym, ◌∙◌, ap, subst, Option, none, some, Bytes,
  arith, ℤ, pos, add64, if_cases,
}
use cache.Decimal.{format_int}
use cache.Store.{pure, continue, Result, ok, err}
use cache.Nats.Bucket.{Answer, answered, key_value_put, Entry, KeyValue, World, RevisionLaws}
use cache.Nats.{NatsStore, body_of, cache_key}
use cache.Nats.Counter.{current, store_count, attempt_increment, increment_loop, increment}
use cache.Nats.Moves.{Moves-trans, called-Moves, IsFair, Moves, met, called}
use cache.Nats.Attempt.{HasCount, Read, IsRead, Begun, Ended, current_lem, store_count_lem}

module _ (kv : KeyValue) (live : kv.State → Bytes → Option Entry)
    (Later : kv.State → kv.State → Type 0) (laws : RevisionLaws kv live Later) (s : NatsStore) where
  -- The count that an increment of a key by `delta` made `n` of, when it wrote.
  pub data Counted (key : Bytes) (delta : ℤ) (b : kv.State) (from to : ℕ) (n : ℤ) : Type 0 where
    from_nothing :
        live b (cache_key kv s key) ≡ none → n ≡ add64 (pos 0) delta → Counted key delta b from to n
    from_entry :
        (e : Entry) (c : ℤ) (read_at : ℕ)
        → live b (cache_key kv s key) ≡ some e
        → HasCount kv live Later laws s key e c read_at
        → from ≤ read_at
        → read_at ≤ to
        → n ≡ add64 c delta
        → Counted key delta b from to n

  -- One write, in the bucket `before`, of the new number.
  pub record Counts (key : Bytes) (delta ttl : ℤ) (w v : World kv) (n : ℤ) : Type 0 where
    pub before : kv.State
    pub later : Later w.bucket before
    pub counted_from : Counted key delta before w.now v.now n
    pub written_at : World kv
    pub given : ℕ
    pub stored :
        live v.bucket (cache_key kv s key)
        ≡ some (record {
          value = body_of kv s (format_int n) ttl written_at;
          revision = given;
          operation = key_value_put;
        })

  Done : Bytes → ℤ → ℤ → World kv → Result (Option ℤ) × World kv → Type 0
  Done key delta ttl w x =
      (o : Option ℤ)
      → x.0 ≡ ok o
      → Moves kv live Later laws w x.1
        × ((o ≡ none) ⊎ ((n : ℤ) × (o ≡ some n) × Counts key delta ttl w x.1 n))

  -- From the moment of the read to that of the write: a revision that is still there means that
  -- the entry is.
  counted_from_lem :
      (key : Bytes) (delta : ℤ) (b before : kv.State) (r : Answer Entry) (from to now : ℕ) (c : ℤ)
      (n : ℕ)
      → ((e : Entry) → r ≡ answered e → live b (cache_key kv s key) ≡ some e)
      → Later b before
      → from ≤ now
      → now ≤ to
      → Read kv live Later laws s key r now c n
      → ((n ≡ 0) × (live before (cache_key kv s key) ≡ none))
        ⊎ ((e : Entry) × (live before (cache_key kv s key) ≡ some e) × (e.revision ≡ n))
      → Counted key delta before from to (add64 c delta)
  counted_from_lem key delta b before r from to now c n is_live later lo hi (inl (z, rev))
        (inl (q, free)) =
      from_nothing free (ap (λ (x : ℤ). add64 x delta) z)
  counted_from_lem key delta b before r from to now c n is_live later lo hi (inl (z, rev))
        (inr (e, there, rev')) =
      absurd (laws.live-positive before (cache_key kv s key) e there (rev' ∙ rev))
  counted_from_lem key delta b before r from to now c n is_live later lo hi (inr (e, got, rev, has))
        (inl (rev', free)) =
      absurd (laws.live-positive b (cache_key kv s key) e (is_live e got) (sym rev ∙ rev'))
  counted_from_lem key delta b before r from to now c n is_live later lo hi (inr (e, got, rev, has))
        (inr (f, there, rev')) =
      let same : e ≡ f =
        laws.one_write b before (cache_key kv s key) e f later (is_live e got) there
          (sym rev ∙ sym rev') in
      from_entry e c now (there ∙ ap some (sym same)) has lo hi refl

  read_lem :
      (key : Bytes) (b : kv.State) (r : Answer Entry) (now : ℕ) (c : ℤ) (n : ℕ) (v u : kv.State)
      → ((e : Entry) → r ≡ answered e → live b (cache_key kv s key) ≡ some e)
      → Later b v
      → Later v u
      → Read kv live Later laws s key r now c n
      → IsRead kv live Later laws s (cache_key kv s key) n u
  read_lem key b r now c n v u is_live here on (inl (z, none_read)) = inl none_read
  read_lem key b r now c n v u is_live here on (inr (e, got, rev, has)) =
      inr (b, e, is_live e got, sym rev, laws.later_trans b v u here on)

  followed :
      (key : Bytes) (delta ttl : ℤ) (w v : World kv) (b : kv.State) (r : Answer Entry)
      (q : Result (ℤ × ℕ)) (u : World kv)
      → ((e : Entry) → r ≡ answered e → live b (cache_key kv s key) ≡ some e)
      → Later b v.bucket
      → Moves kv live Later laws w v
      → Begun kv live Later laws s key r v (q, u)
      → Done key delta ttl w
          (continue q (λ c. store_count kv s (cache_key kv s key) (add64 c.0 delta) ttl c.1) u)
  unfolding Done Begun Ended
  followed key delta ttl w v b r (err x) u is_live here m begun = λ o h. absurd (ground arith)
  followed key delta ttl w v b r (ok (c, n)) u is_live here m begun = λ o h.
      let at = cache_key kv s key in
      let (moved, read) = begun c n refl in
      let x = store_count kv s at (add64 c delta) ttl n u in
      let (ends, o_is) =
        store_count_lem kv live Later laws s at (add64 c delta) ttl n u moved.fair
          (read_lem key b r v.now c n v.bucket u.bucket is_live here moved.later read) o h in
      let all : Moves kv live Later laws w x.1 =
        Moves-trans kv live Later laws w v x.1 m
          (Moves-trans kv live Later laws v u x.1 moved ends) in
      (
        all,
        elim o_is [
          | inl again ↦ inl again
          | inr (gives, wrote) ↦ inr (
            add64 c delta,
            gives,
            record {
              before = wrote.before;
              later =
                  laws.later_trans w.bucket u.bucket wrote.before
                    (Moves-trans kv live Later laws w v u m moved).later wrote.later;
              counted_from =
                  counted_from_lem key delta b wrote.before r w.now x.1.now v.now c n is_live
                    (laws.later_trans b u.bucket wrote.before
                      (laws.later_trans b v.bucket u.bucket here moved.later) wrote.later)
                    m.clock (omega (arith, moved.clock, ends.clock)) read wrote.found;
              written_at = u;
              given = wrote.given;
              stored = wrote.stored;
            },
          )
        ],
      )

  attempt_increment_lem :
      (key : Bytes) (delta ttl : ℤ) (w : World kv)
      → IsFair kv live Later laws w
      → Done key delta ttl w (attempt_increment kv s key delta ttl w)
  unfolding attempt_increment
  attempt_increment_lem key delta ttl w fair =
      let at = cache_key kv s key in
      let v = called kv live Later laws (kv.get at) w in
      let b = (met kv live Later laws w).bucket in
      let r = (kv.get at b).0 in
      let m = called-Moves kv live Later laws (kv.get at) w (laws.get-later at) fair in
      followed key delta ttl w v b r (current kv s key at r v).0 (current kv s key at r v).1
        (λ e got. laws.get-live at b e got) (laws.get-later at b) m
        (current_lem kv live Later laws s key at r v m.fair)

  Counts-later :
      (key : Bytes) (delta ttl n : ℤ) (w u v : World kv)
      → Moves kv live Later laws w u
      → Counts key delta ttl u v n
      → Counts key delta ttl w v n
  Counts-later key delta ttl n w u v m c = record {
    before = c.before;
    later = laws.later_trans w.bucket u.bucket c.before m.later c.later;
    counted_from = earlier c.counted_from;
    written_at = c.written_at;
    given = c.given;
    stored = c.stored;
  }
    where
      earlier :
          {b : kv.State} → Counted key delta b u.now v.now n → Counted key delta b w.now v.now n
      earlier (from_nothing free e) = from_nothing free e
      earlier (from_entry e c at there has lo hi eq) =
          from_entry e c at there has (omega (arith, m.clock, lo)) hi eq

  -- After one turn: a number ends the loop, and `none` goes on.
  turned :
      (attempts : ℕ) (key : Bytes) (delta ttl n : ℤ) (w : World kv) (q : Result (Option ℤ))
      (u : World kv)
      → ((v : World kv)
          → IsFair kv live Later laws v
          → (increment_loop kv s attempts key delta ttl v).0 ≡ ok n
          → Counts key delta ttl v (increment_loop kv s attempts key delta ttl v).1 n)
      → Done key delta ttl w (q, u)
      → (continue q
          (λ o. elim o [ some k ↦ pure k | none ↦ increment_loop kv s attempts key delta ttl ])
          u).0
        ≡ ok n
      → Counts key delta ttl w
          (continue q
            (λ o. elim o [ some k ↦ pure k | none ↦ increment_loop kv s attempts key delta ttl ])
            u).1
          n
  unfolding Done
  turned attempts key delta ttl n w (err x) u again d h = absurd (ground arith)
  turned attempts key delta ttl n w (ok none) u again d h =
      let m : Moves kv live Later laws w u = (d none refl).0 in
      Counts-later key delta ttl n w u _ m (again u m.fair h)
  turned attempts key delta ttl n w (ok (some k)) u again d h = elim (d (some k) refl).1 [
    | inl nothing ↦ absurd (ground arith)
    | inr (j, same, counts) ↦ subst (λ (i : ℤ). Counts key delta ttl w u i) (ground arith) counts
  ]

  increment_loop_lem :
      (attempts : ℕ) (key : Bytes) (delta ttl n : ℤ) (w : World kv)
      → IsFair kv live Later laws w
      → (increment_loop kv s attempts key delta ttl w).0 ≡ ok n
      → Counts key delta ttl w (increment_loop kv s attempts key delta ttl w).1 n
  unfolding increment_loop
  increment_loop_lem zero key delta ttl n w fair = λ h. absurd (ground arith)
  increment_loop_lem (suc attempts) key delta ttl n w fair =
      let x = attempt_increment kv s key delta ttl w in
      turned attempts key delta ttl n w x.0 x.1 (increment_loop_lem attempts key delta ttl n)
        (attempt_increment_lem key delta ttl w fair)

  pub increment-Counts :
      (key : Bytes) (delta ttl n : ℤ) (w : World kv)
      → IsFair kv live Later laws w
      → (increment kv s key delta ttl w).0 ≡ ok n
      → Counts key delta ttl w (increment kv s key delta ttl w).1 n
  unfolding increment
  increment-Counts key delta ttl n w fair =
      if_cases (λ (x : Result ℤ × World kv). x.0 ≡ ok n → Counts key delta ttl w x.1 n) s.connected
        _ _ (λ up. increment_loop_lem 16 key delta ttl n w fair) (λ down h. absurd (ground arith))
