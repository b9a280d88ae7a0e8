-- ===== src/Core/Model.antt =====
-- crates/nuncio-core/src/model.rs: the domain entities that the modelled parts exchange.
use nuncio.Common.{ℕ, String, Bool, List, Option}
use nuncio.Common.Int.{ℤ}

pub record Attachment : Type 0 where
  pub filename : String
  pub mime_type : String
  pub content : List ℕ

pub record Email : Type 0 where
  pub id : String
  pub account_id : String
  pub folder_id : String
  pub subject : String
  pub sender : String
  pub recipient : String
  pub received_at : ℤ
  pub read : Bool
  pub body_plain : Option String
  pub body_html : Option String
  pub attachments : List Attachment

pub record Folder : Type 0 where
  pub id : String
  pub name : String
  pub total_messages : ℕ
  pub unread_messages : ℕ
