-- ===== src/FsNode.antt =====
-- ui/src/domain/fs-node.ts: a file of the workspace with its content. The unions of string
-- literals (`ViewerKind`, the encoding) are strings; the size, times and preview limits, which the
-- modelled code does not read, are left out.
use vivi.Base.{Bool, Option}
use vivi.Base.Strings.{Text}

pub record FilePayload : Type 0 where
  pub path : Text
  pub viewer_kind : Text
  pub encoding : Text
  pub content : Text
  pub etag : Text
  pub truncated : Option Bool
