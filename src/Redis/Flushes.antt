-- ===== src/Redis/Flushes.antt =====
-- DeleteMany and Flush of driver/rediscache/store.go, on a server that answers.
use mathlib.Core.List.{append_assoc}
use cache.Prelude.{
  subst, if_cases, ℕ, zero, suc, ◌<◌, ◌≡◌, ◌≢◌, inl, inr, refl, ap, sym, ◌∙◌, Bool, true, false,
  Option, none, some, List, [], ◌∷◌, ◌++◌, arith, Bytes, codes, has_prefix, ◌==◌, is_positive,
  if◌then◌else◌, Bool-cases, Option-cases,
}
use cache.Store.{Result, ok}
use cache.Store.Contract.{Command, done, exec, member}
use cache.Store.Spec
use cache.Store.Spec.{assign, assign_none, counter, spec_step, spec_run}
use cache.Redis.Server.{Client, IsLiteral, ServerLaws}
use cache.Redis.{
  RedisStore, cache_key, cache_keys, delete_many, flush, flush_from, delete_all, redis_store,
}
use cache.Redis.Table.{equal-cache_key, Holds, Refines}

module _ (client : Client) (live : client.State → Bytes → Option Bytes) (pending : ℕ → Bytes → Bool)
    (turns : ℕ → ℕ) (laws : ServerLaws client live pending turns) (s : RedisStore)
    (up : s.connected ≡ true) (positive : is_positive s.ttl ≡ true) where
  -- What DeleteMany leaves.
  member-cache_keys :
      (j : Bytes) (ks : List Bytes)
      → member (cache_key client s j) (cache_keys client s ks) ≡ member j ks
  member-cache_keys j [] = refl
  member-cache_keys j (k ∷ ks) =
      ground (arith, equal-cache_key client s k j, member-cache_keys j ks)

  assign_none-member :
      (ks : List Bytes) (m : Spec.Table) (j : Bytes)
      → assign_none ks m j ≡ (if member j ks then none else m j)
  assign_none-member [] m j = refl
  assign_none-member (k ∷ ks) m j = ground (arith, assign_none-member ks (assign k none m) j)

  pub delete_many-Refines :
      (ks : List Bytes) (st : client.State) (m : Spec.Table)
      → Holds client live pending turns laws s up positive st m
      → Refines client live pending turns laws s up positive (Command.delete_many ks) st m
  unfolding exec redis_store delete_many spec_step
  delete_many-Refines [] st m h = record {
    reply = ok done;
    promised = ok done;
    table = m;
    state = st;
    spec = refl;
    does = ground (arith, up);
    agrees = refl;
    keeps = h;
  }
  delete_many-Refines (k ∷ ks) st m h =
      let names = cache_keys client s (k ∷ ks) in
      let r = client.del names st in
      let (n, wrote) = laws.del-lem names st in
      record {
        reply = ok done;
        promised = ok done;
        table = assign_none (k ∷ ks) m;
        state = r.1;
        spec = refl;
        does = ground (arith, up, wrote.0);
        agrees = refl;
        keeps = record {
          at_key = λ j. ground (
            arith,
            wrote.1 (cache_key client s j),
            member-cache_keys j (k ∷ ks),
            h.at_key j,
            assign_none-member (k ∷ ks) m j,
          );
        };
      }

  abbrev own : Bytes
  own = s.prefix ++ codes ":"

  -- From a cursor on: nothing whose place is still to come is left, and other keys stay.
  pub record Flushed (cursor : ℕ) (st : client.State) (r : Result (Unit {0}) × client.State)
      : Type 0 where
    pub succeeds : r.0 ≡ ok tt
    pub gone : (k : Bytes) → has_prefix k own ≡ true → pending cursor k ≡ true → live r.1 k ≡ none
    pub stays : (k : Bytes) → live st k ≡ none → live r.1 k ≡ none
    pub others : (k : Bytes) → has_prefix k own ≡ false → live r.1 k ≡ live st k

  -- The deletion of the keys of one page.
  record Cleared (ks : List Bytes) (st : client.State) : Type 0 where
    state : client.State
    does : delete_all client s ks st ≡ (ok tt, state)
    removed : (j : Bytes) → live state j ≡ (if member j ks then none else live st j)

  clear_page : (ks : List Bytes) (st : client.State) → Cleared ks st
  clear_page [] st = record { state = st; does = refl; removed = λ j. refl }
  clear_page (k ∷ ks) st =
      let (n, wrote) = laws.del-lem (k ∷ ks) st in
      record {
        state = (client.del (k ∷ ks) st).1;
        does = ground (arith, wrote.0);
        removed = wrote.1;
      }

  turn :
      (fuel cursor next : ℕ) (ks : List Bytes) (st st' : client.State)
      → client.scan cursor (own ++ codes "*") 200 st ≡ (ok (ks, next), st)
      → delete_all client s ks st ≡ (ok tt, st')
      → flush_from client s (suc fuel) cursor st
        ≡ (if next == 0 then (ok tt, st') else flush_from client s fuel next st')
  unfolding flush_from cache_key
  turn fuel cursor next ks st st' scanned deleted =
      let scanned' : client.scan cursor (s.prefix ++ (codes ":" ++ codes "*")) 200 st
          ≡ (ok (ks, next), st) =
        ap (λ (p : Bytes). client.scan cursor p 200 st)
          (sym (append_assoc s.prefix (codes ":") (codes "*")))
        ∙ scanned in
      ground (arith, scanned', deleted)

  -- The scan of a page found every key of the store that has its place before the next cursor.
  Covers : ℕ → ℕ → List Bytes → client.State → Type 0
  Covers cursor next ks st =
      (k v : Bytes)
      → live st k ≡ some v
      → has_prefix k own ≡ true
      → pending cursor k ≡ true
      → member k ks ≡ false
      → (next ≢ 0) × (pending next k ≡ true)

  ends-Flushed :
      (cursor next : ℕ) (ks : List Bytes) (st : client.State) (page : Cleared ks st)
      → next ≡ 0
      → ((k : Bytes) → member k ks ≡ true → has_prefix k own ≡ true)
      → Covers cursor next ks st
      → Flushed cursor st (ok tt, page.state)
  unfolding Covers
  ends-Flushed cursor next ks st page end owned covers = record {
    succeeds = refl;
    gone = λ k is_own ahead. elim (Bool-cases (member k ks)) [
      | inl there ↦ ground (arith, page.removed k, there)
      | inr absent ↦ elim (Option-cases (live st k)) [
        | inl free ↦ ground (arith, page.removed k, free)
        | inr (v, held) ↦ absurd ((covers k v held is_own ahead absent).0 end)
      ]
    ];
    stays = λ k free. ground (arith, page.removed k, free);
    others = λ k other. ground (arith, page.removed k, owned k, other);
  }

  goes_on-Flushed :
      (cursor next : ℕ) (ks : List Bytes) (st : client.State) (page : Cleared ks st)
      (r : Result (Unit {0}) × client.State)
      → ((k : Bytes) → member k ks ≡ true → has_prefix k own ≡ true)
      → Covers cursor next ks st
      → Flushed next page.state r
      → Flushed cursor st r
  unfolding Covers
  goes_on-Flushed cursor next ks st page r owned covers rest = record {
    succeeds = rest.succeeds;
    gone = λ k is_own ahead. elim (Bool-cases (member k ks)) [
      | inl there ↦ rest.stays k (ground (arith, page.removed k, there))
      | inr absent ↦ elim (Option-cases (live st k)) [
        | inl free ↦ rest.stays k (ground (arith, page.removed k, free))
        | inr (v, held) ↦ rest.gone k is_own (covers k v held is_own ahead absent).1
      ]
    ];
    stays = λ k free. rest.stays k (ground (arith, page.removed k, free));
    others = λ k other. rest.others k other ∙ ground (arith, page.removed k, owned k, other);
  }

  flush_from_lem :
      (fuel cursor : ℕ) (st : client.State)
      → IsLiteral own
      → turns cursor < fuel
      → Flushed cursor st (flush_from client s fuel cursor st)
  unfolding Covers
  flush_from_lem zero cursor st literal enough = absurd (omega (arith, enough))
  flush_from_lem (suc fuel) cursor st literal enough =
      let (ks, next, scanned, owned, covers, less) = laws.scan-lem cursor own st literal in
      let page = clear_page ks st in
      subst (Flushed cursor st) (sym (turn fuel cursor next ks st page.state scanned page.does)) (
        if_cases (Flushed cursor st) (next == 0) (ok tt, page.state)
          (flush_from client s fuel next page.state)
          (λ end. ends-Flushed cursor next ks st page (ground (arith, end)) owned covers)
          (λ more.
            goes_on-Flushed cursor next ks st page (flush_from client s fuel next page.state) owned
              covers
              (flush_from_lem fuel next page.state literal
                (omega (arith, enough, less (λ z. absurd (ground (arith, more, z))))))))

  -- On a server that answers and whose Scan keeps its promises, with a prefix that has no special
  -- character of a pattern, and with more turns allowed than an iteration of Scan takes: Flush ends
  -- without an error, no key with the prefix of the store is left, and every other key stays.
  pub flush-ends :
      (st : client.State)
      → IsLiteral own
      → turns 0 < s.turns
      → ((flush client s st).0 ≡ ok tt)
        × ((k : Bytes) → has_prefix k own ≡ true → live (flush client s st).1 k ≡ none)
        × ((k : Bytes) → has_prefix k own ≡ false → live (flush client s st).1 k ≡ live st k)
  unfolding flush
  flush-ends st literal enough =
      let f = flush_from_lem s.turns 0 st literal enough in
      if_cases
        (λ (r : Result (Unit {0}) × client.State).
          (r.0 ≡ ok tt)
          × ((k : Bytes) → has_prefix k own ≡ true → live r.1 k ≡ none)
          × ((k : Bytes) → has_prefix k own ≡ false → live r.1 k ≡ live st k))
        s.connected _ _ (λ yes. (f.succeeds, λ k o. f.gone k o (laws.starts k), f.others))
        (λ down. absurd (ground (arith, up, down)))
