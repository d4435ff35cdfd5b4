-- ===== src/Js.antt =====
-- The parts of the ECMAScript language that the request validators observe.
mod Interface
mod Decimal
mod Value
pub use Interface.{Runtime, exact_limit}
pub use Decimal.{Decimals, time_limit}
pub use Value.{Json, null, boolean, num, str, arr, obj, Items, nil, cons, Fields, end, field}
unfoldable pub use Value.{get, has_key, lookup, body_or_empty, to_text, join, join_rest, to_number}
pub use Value.{◌>>=◌, joined_total, item_text_total, item_text}
