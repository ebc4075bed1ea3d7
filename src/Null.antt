-- ===== src/Null.antt =====
-- store_null.go and error_store.go: the backends that store nothing.
use cache.Prelude.{true, none, some, pos}
use cache.Store.{Error, Driver, null, pure, fail, Store}

unfoldable pub null_store : {W : Type 0} → Store W
null_store = record {
  driver = null;
  ready = pure tt;
  get = λ key. pure none;
  set = λ key value ttl. pure tt;
  add = λ key value ttl. pure true;
  increment = λ key delta ttl. pure (pos 0);
  decrement = λ key delta ttl. pure (pos 0);
  delete = λ key. pure tt;
  delete_many = λ keys. pure tt;
  flush = pure tt;
  lock_store =
      some (record {
        lock_acquire = λ key owner ttl. pure true;
        lock_release = λ key owner. pure true;
      });
  inspector = none;
}

-- A driver that failed to initialize: every operation reports the construction error.
unfoldable pub error_store : {W : Type 0} → Driver → Error → Store W
error_store driver e = record {
  driver = driver;
  ready = fail e;
  get = λ key. fail e;
  set = λ key value ttl. fail e;
  add = λ key value ttl. fail e;
  increment = λ key delta ttl. fail e;
  decrement = λ key delta ttl. fail e;
  delete = λ key. fail e;
  delete_many = λ keys. fail e;
  flush = fail e;
  lock_store =
      some (record { lock_acquire = λ key owner ttl. fail e; lock_release = λ key owner. fail e });
  inspector = none;
}
