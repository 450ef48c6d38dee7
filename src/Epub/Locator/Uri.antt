-- ===== src/Epub/Locator/Uri.antt =====
-- `Locator::to_uri` and `Locator::from_uri`, epub/src/domain/locator.rs.
use read_flow.Prelude.{ℕ, not, retain, Option, some, List, ◌++◌, map}
use read_flow.Chars.{Chars, codes, strip_prefix, split, join, split_once, is_empty, all_some, ◌>>=◌}
use read_flow.Epub.Decimal.{to_string, parse_u32}

pub record Locator : Type 0 where
  pub spine_index : ℕ
  pub node_path : List ℕ
  pub char_offset : ℕ

unfoldable pub to_uri : Locator → Chars → Chars
to_uri l document_hash =
    codes "rf://doc/"
    ++ (document_hash
        ++ (codes "/spine/"
            ++ (to_string l.spine_index
                ++ (codes "/node/"
                    ++ (join b'/' (map to_string l.node_path)
                        ++ (codes "/char/" ++ to_string l.char_offset))))))

unfoldable pub node_steps : Chars → Option (List ℕ)
node_steps node_str =
    all_some (map parse_u32 (retain (λ s. not (is_empty s)) (split b'/' node_str)))

unfoldable pub from_uri : Chars → Option Locator
from_uri uri = do
  rest ← strip_prefix (codes "rf://doc/") uri
  spine ← split_once (codes "/spine/") rest
  node ← split_once (codes "/node/") spine.1
  spine_index ← parse_u32 node.0
  offset ← split_once (codes "/char/") node.1
  char_offset ← parse_u32 offset.1
  node_path ← node_steps offset.0
  some record { spine_index = spine_index; node_path = node_path; char_offset = char_offset }
