-- ===== src/Nats/Attempt.antt =====
-- One turn of the loop of Increment in driver/natscache/store.go, between other clients: its read
-- and its write.
use cache.Prelude.{
  ℕ, ◌≡◌, ◌⊎◌, inl, inr, refl, ap, ◌∙◌, sym, true, false, ◌||◌, Option, none, some, Bytes, ◌==◌,
  arith, ℤ, pos, if_cases,
}
use cache.Decimal.{format_int}
use cache.Store.{Result, ok, err, Result-cases, Act}
use cache.Nats.Bucket.{
  Answer, answered, failed, key_value_put, Entry, KeyValue, World, RevisionLaws,
}
use cache.Nats.{
  NatsStore, Envelope, is_miss, is_exists, decode_envelope, is_expired, body_of, is_removal,
}
use cache.Nats.Counter.{
  number_in, counted, current, count_created, count_updated, store_count, with_revision,
}
use cache.Nats.Moves.{Moves-refl, after-Moves, called-Moves, IsFair, Moves, met, called}

module _ (kv : KeyValue) (live : kv.State → Bytes → Option Entry)
    (Later : kv.State → kv.State → Type 0) (laws : RevisionLaws kv live Later) (s : NatsStore) where
  -- The bytes that an entry stores, and the count in them: its envelope, if it has one, is not
  -- past its end.
  pub data Stores (e : Entry) (now : ℕ) : Bytes → Type 0 where
    plain : s.bucket_ttl ≡ true → Stores e now e.value
    legacy : decode_envelope s.unmarshal e.value ≡ ok none → Stores e now e.value
    enclosed :
        (env : Envelope) (w : World kv)
        → decode_envelope s.unmarshal e.value ≡ ok (some env)
        → w.now ≡ now
        → is_expired kv s env w ≡ false
        → Stores e now env.value

  pub record HasCount (key : Bytes) (e : Entry) (c : ℤ) (now : ℕ) : Type 0 where
    pub raw : Bytes
    pub stores : Stores e now raw
    pub reads : number_in kv s key raw ≡ ok c

  -- What an attempt read: nothing to count from, or the number in the entry that it got.
  abbrev pub Read : Bytes → Answer Entry → ℕ → ℤ → ℕ → Type 0
  Read key r now c n =
      ((c ≡ pos 0) × (n ≡ 0))
      ⊎ ((e : Entry) × (r ≡ answered e) × (n ≡ e.revision) × HasCount key e c now)

  number_lem :
      (key raw : Bytes) (e : Entry) (now n : ℕ) (c : ℤ)
      → Stores e now raw
      → with_revision kv s e.revision (number_in kv s key raw) ≡ ok (c, n)
      → Read key (answered e) now c n
  number_lem key raw e now n c st h = elim (Result-cases (number_in kv s key raw)) [
    | inr (x, bad) ↦ absurd (ground arith)
    | inl (d, good) ↦
        let same : d ≡ c = ground arith in
        let rev : n ≡ e.revision = ground arith in
        inr (e, refl, rev, record { raw = raw; stores = st; reads = ground arith })
  ]

  unfoldable pub Begun : Bytes → Answer Entry → World kv → Result (ℤ × ℕ) × World kv → Type 0
  Begun key r w x =
      (c : ℤ) (n : ℕ) → x.0 ≡ ok (c, n) → Moves kv live Later laws w x.1 × Read key r w.now c n

  counted_lem :
      (key at : Bytes) (e : Entry) (o : Result (Option Envelope)) (w : World kv)
      → decode_envelope s.unmarshal e.value ≡ o
      → IsFair kv live Later laws w
      → Begun key (answered e) w (counted kv s key at e o w)
  unfolding Begun
  counted_lem key at e (err x) w d fair = λ c n h. absurd (ground arith)
  counted_lem key at e (ok none) w d fair = λ c n h.
      (Moves-refl kv live Later laws w fair, number_lem key e.value e w.now n c (legacy d) h)
  counted_lem key at e (ok (some env)) w d fair =
      if_cases (Begun key (answered e) w) (is_expired kv s env w) _ _
        (λ gone c n h. (
          called-Moves kv live Later laws (kv.purge at) w (laws.purge-later at) fair,
          inl (ground arith, ground arith),
        ))
        (λ alive c n h. (
          Moves-refl kv live Later laws w fair,
          number_lem key env.value e w.now n c (enclosed env w d refl alive) h,
        ))

  zero_lem :
      (key : Bytes) (r : Answer Entry) (w : World kv)
      → IsFair kv live Later laws w
      → Begun key r w (ok (pos 0, 0), w)
  unfolding Begun
  zero_lem key r w fair c n h =
      (Moves-refl kv live Later laws w fair, inl (ground arith, ground arith))

  pub current_lem :
      (key at : Bytes) (r : Answer Entry) (w : World kv)
      → IsFair kv live Later laws w
      → Begun key r w (current kv s key at r w)
  unfolding Begun
  current_lem key at (failed x) w fair =
      if_cases (λ (m : Act (World kv) (ℤ × ℕ)). Begun key (failed x) w (m w)) (is_miss x) _ _
        (λ miss. zero_lem key (failed x) w fair) (λ bad c n h. absurd (ground arith))
  current_lem key at (answered e) w fair =
      if_cases (λ (m : Act (World kv) (ℤ × ℕ)). Begun key (answered e) w (m w))
        (is_removal kv s e.operation) _ _ (λ gone. zero_lem key (answered e) w fair)
        (λ there.
          if_cases (λ (m : Act (World kv) (ℤ × ℕ)). Begun key (answered e) w (m w)) s.bucket_ttl _ _
            (λ kept c n h. (
              Moves-refl kv live Later laws w fair,
              number_lem key e.value e w.now n c (plain kept) h,
            ))
            (λ own. counted_lem key at e (decode_envelope s.unmarshal e.value) w refl fair))

  -- The write of an attempt: it found the entry that the attempt counted from, or none if it
  -- counted from nothing.
  pub record Wrote (at : Bytes) (next : ℤ) (revision : ℕ) (ttl : ℤ) (w v : World kv) : Type 0 where
    pub before : kv.State
    pub later : Later w.bucket before
    pub found :
        ((revision ≡ 0) × (live before at ≡ none))
        ⊎ ((e : Entry) × (live before at ≡ some e) × (e.revision ≡ revision))
    pub given : ℕ
    pub stored :
        live v.bucket at
        ≡ some (record {
          value = body_of kv s (format_int next) ttl w;
          revision = given;
          operation = key_value_put;
        })

  unfoldable pub Ended : Bytes → ℤ → ℕ → ℤ → World kv → Result (Option ℤ) × World kv → Type 0
  Ended at next revision ttl w x =
      (o : Option ℤ)
      → x.0 ≡ ok o
      → Moves kv live Later laws w x.1
        × ((o ≡ none) ⊎ ((o ≡ some next) × Wrote at next revision ttl w x.1))

  created_lem :
      (at : Bytes) (next ttl : ℤ) (revision : ℕ) (w v : World kv) (r : Answer ℕ)
      → Moves kv live Later laws w v
      → ((n : ℕ) → r ≡ answered n → Wrote at next revision ttl w v)
      → Ended at next revision ttl w (count_created kv s next r v)
  unfolding Ended
  created_lem at next ttl revision w v (answered n) m h = λ o e. (m, inr (ground arith, h n refl))
  created_lem at next ttl revision w v (failed x) m h =
      if_cases (λ (f : Act (World kv) (Option ℤ)). Ended at next revision ttl w (f v)) (is_exists x)
        _ _ (λ again o e. (m, inl (ground arith))) (λ bad o e. absurd (ground arith))

  updated_lem :
      (at : Bytes) (next ttl : ℤ) (revision : ℕ) (w v : World kv) (r : Answer ℕ)
      → Moves kv live Later laws w v
      → ((n : ℕ) → r ≡ answered n → Wrote at next revision ttl w v)
      → Ended at next revision ttl w (count_updated kv s next r v)
  unfolding Ended
  updated_lem at next ttl revision w v (answered n) m h = λ o e. (m, inr (ground arith, h n refl))
  updated_lem at next ttl revision w v (failed x) m h =
      if_cases (λ (f : Act (World kv) (Option ℤ)). Ended at next revision ttl w (f v))
        (is_exists x || is_miss x) _ _ (λ again o e. (m, inl (ground arith)))
        (λ bad o e. absurd (ground arith))

  -- Where a revision comes from: none, or a value that the key had.
  abbrev pub IsRead : Bytes → ℕ → kv.State → Type 0
  IsRead at revision b =
      (revision ≡ 0)
      ⊎ ((read : kv.State) × (e : Entry) × (live read at ≡ some e)
          × (e.revision ≡ revision)
          × Later read b)

  updated_live :
      (at body : Bytes) (revision n : ℕ) (w b : kv.State)
      → IsRead at revision w
      → Later w b
      → (revision == 0) ≡ false
      → (kv.update at body revision b).0 ≡ answered n
      → ((e : Entry) × (live b at ≡ some e) × (e.revision ≡ revision))
        × (live (kv.update at body revision b).1 at
            ≡ some (record { value = body; revision = n; operation = key_value_put }))
  updated_live at body revision n w b (inl zero) here some_revision done =
      absurd (ground (arith, zero, some_revision))
  updated_live at body revision n w b (inr (read, e, there, same, before)) here some_revision done =
      let late = laws.later_trans read w b before here in
      let done' : (kv.update at body e.revision b).0 ≡ answered n =
        ap (λ (r : ℕ). (kv.update at body r b).0) same ∙ done in
      let (found, stored) = laws.update-live at body e n read b there late done' in
      ((e, found, same), ap (λ (r : ℕ). live (kv.update at body r b).1 at) (sym same) ∙ stored)

  pub store_count_lem :
      (at : Bytes) (next ttl : ℤ) (revision : ℕ) (w : World kv)
      → IsFair kv live Later laws w
      → IsRead at revision w.bucket
      → Ended at next revision ttl w (store_count kv s at next ttl revision w)
  unfolding store_count
  store_count_lem at next ttl revision w fair read =
      let body = body_of kv s (format_int next) ttl w in
      let b = (met kv live Later laws w).bucket in
      let here = (after-Moves kv live Later laws w.interludes w fair).later in
      if_cases (Ended at next revision ttl w) (revision == 0) _ _
        (λ zero.
          created_lem at next ttl revision w (called kv live Later laws (kv.create at body) w)
            (kv.create at body b).0
            (called-Moves kv live Later laws (kv.create at body) w (laws.create-later at body) fair)
            (λ n done. record {
              before = b;
              later = here;
              found = inl (ground arith, (laws.create-live at body b n done).0);
              given = n;
              stored = (laws.create-live at body b n done).1;
            }))
        (λ some_revision.
          updated_lem at next ttl revision w
            (called kv live Later laws (kv.update at body revision) w)
            (kv.update at body revision b).0
            (called-Moves kv live Later laws (kv.update at body revision) w
              (laws.update-later at body revision) fair)
            (λ n done. record {
              before = b;
              later = here;
              found =
                  inr (updated_live at body revision n w.bucket b read here some_revision done).0;
              given = n;
              stored = (updated_live at body revision n w.bucket b read here some_revision done).1;
            }))
