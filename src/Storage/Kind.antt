-- ===== src/Storage/Kind.antt =====
-- `CacheKind` of crates/storage_impl/src/redis/cache.rs, and the messages that carry it.
use mathlib.Core.Option
pub mod RoundTrip
use mercado.Prelude.Results.{Result, ◌>>=◌, ok_or, ok, err}
use mercado.Prelude.Int.{ℤ}
use mercado.Prelude.{String, Option, if◌then◌else◌, none, some, str_eq, ◌==◌}
use Prim.Native.String.{◌++◌ as str_append}
use Prim.Native.Char.{code}
use mercado.Redis.Replies.{FredValue}

pub data CacheKind : Type 0 where
  config accounts all : String → CacheKind

abbrev pub config_cache_prefix : String
config_cache_prefix = "config"

abbrev pub accounts_cache_prefix : String
accounts_cache_prefix = "accounts"

abbrev pub all_cache_prefix : String
all_cache_prefix = "all_cache_kind"

-- `RedisValue::from`
unfoldable pub kind_to_value : CacheKind → FredValue
kind_to_value (config s) = FredValue.string (str_append config_cache_prefix (str_append "," s))
kind_to_value (accounts s) = FredValue.string (str_append accounts_cache_prefix (str_append "," s))
kind_to_value (all s) = FredValue.string (str_append all_cache_prefix (str_append "," s))

-- `str::split_once(',')`
unfoldable pub split_once_comma : String → Option (String × String)
split_once_comma String.[] = none
split_once_comma (String.◌∷◌ c s) =
    let rest = split_once_comma s in
    if code c == 44
    then some ("", s)
    else Option.map (λ (front, back). (String.◌∷◌ c front, back)) rest

-- `ValidationError`
pub data ValidationError : Type 0 where
  missing_required_field incorrect_value_provided invalid_value : String → ValidationError

abbrev pub validation_err : ValidationError
validation_err = invalid_value "Invalid publish key provided in pubsub"

-- The match on the part before the comma.
kind_of_parts : String × String → Result ValidationError CacheKind
kind_of_parts (kind, s) =
    if str_eq kind accounts_cache_prefix
    then ok (accounts s)
    else if str_eq kind config_cache_prefix
    then ok (config s)
    else if str_eq kind all_cache_prefix
    then ok (all s)
    else err validation_err

-- `CacheKind::try_from`, over `RedisValue::as_string` of fred.
unfoldable pub kind_from_value :
    (FredValue → Option String) → FredValue → Result ValidationError CacheKind
unfolding split_once_comma kind_of_parts
kind_from_value as_string value = do
  kind ← ok_or (as_string value) validation_err
  split ← ok_or (split_once_comma kind) validation_err
  kind_of_parts split
