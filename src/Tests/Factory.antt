-- ===== src/Tests/Factory.antt =====
-- factory.go at concrete configurations.
use cache.Prelude.{◌≡◌, refl, [], codes, pos}
use cache.Store.{err, text, encryption_key, file, memory, unset}
use cache.Store.Contract.{get, exec}
use cache.Shaping.Wrap.{validate_base_config}
use cache.Factory.{Platform, StoreConfig, with_defaults, new_store_for_driver}
use cache.Factory.Opens.{new_store_for_driver-driver, new_store_for_driver-invalid}
use cache.Tests.Files.{pad, temp_name}
use cache.Tests.Fixtures.{engine, gzip, crypto, read_zeros, zeros}

abbrev platform : Platform
platform = record {
  engine = engine;
  gzip = gzip;
  crypto = crypto;
  read_random = read_zeros;
  sha256 = pad 32;
  unmarshal = λ body. err (text "not JSON");
  temp_name = temp_name;
  default_file_dir = codes "/tmp/cache-file";
  directory = λ name. record { files = []; faults = []; now = 1000 };
  now = 1000;
}

-- A key of 15 bytes.
abbrev bad_config : StoreConfig
bad_config = record {
  base = record {
    default_ttl = pos 0;
    prefix = [];
    compression = unset;
    max_value_bytes = pos 0;
    encryption_key = zeros 15;
  };
  memory_cleanup_interval = pos 0;
  file_dir = [];
}

new_store_for_driver-driver_example :
    (new_store_for_driver platform file bad_config).store.driver ≡ file
new_store_for_driver-driver_example = new_store_for_driver-driver platform file bad_config

new_store_for_driver-invalid_example :
    exec
      (new_store_for_driver platform memory bad_config).store
      (get (codes "k"))
      (new_store_for_driver platform memory bad_config).start
    ≡ (err encryption_key, (new_store_for_driver platform memory bad_config).start)
unfolding validate_base_config with_defaults
new_store_for_driver-invalid_example =
    new_store_for_driver-invalid platform memory bad_config encryption_key (get (codes "k"))
      (new_store_for_driver platform memory bad_config).start refl refl
