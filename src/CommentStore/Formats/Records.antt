-- ===== src/CommentStore/Formats/Records.antt =====
-- The records of the comment store written on lines, in place of JSON.
use vivi.Base.{ℕ, ◌≡◌, refl, Option, List, [], ◌∷◌, or_else, get_elem?}
use vivi.Base.Strings.{Text}
use vivi.Comments.{
  CommentStatus, open_status, resolved, archived, CommentSource, human, claude_code, codex,
  unknown_source, CommentSurface, source, rendered, diff, CommentViewerKind, text, markdown, html,
  image, json, yaml, csv, binary, unknown, CommentActor, SourceAnchor, RenderedKind, markdown_page,
  html_page, RenderedAnchor, DiffSide, old, new, ChangeKind, context, added, DiffAnchor,
  CommentAnchor, ViviComment, CommentThread,
}
use vivi.CommentStore.{
  DraftReviewComment, ThreadEvent, ThreadEventType, thread_created, thread_status_changed,
  thread_claimed, thread_claim_released, thread_read, comment_added, comment_updated,
}
use vivi.CommentStore.Jobs.{Codecs}
use vivi.CommentStore.Formats.{
  Format, numbers, texts, options, lists, enums, through, ◌**◌, codec_of,
}

statuses : Format CommentStatus
statuses = enums open_status (open_status ∷ resolved ∷ archived ∷ []) to law
  where
    to : CommentStatus → ℕ
    to open_status = 0
    to resolved = 1
    to archived = 2

    law :
        (x : CommentStatus)
        → or_else (get_elem? (open_status ∷ resolved ∷ archived ∷ []) (to x)) open_status ≡ x
    law open_status = refl
    law resolved = refl
    law archived = refl

sources : Format CommentSource
sources = enums human (human ∷ claude_code ∷ codex ∷ unknown_source ∷ []) to law
  where
    to : CommentSource → ℕ
    to human = 0
    to claude_code = 1
    to codex = 2
    to unknown_source = 3

    law :
        (x : CommentSource)
        → or_else (get_elem? (human ∷ claude_code ∷ codex ∷ unknown_source ∷ []) (to x)) human ≡ x
    law human = refl
    law claude_code = refl
    law codex = refl
    law unknown_source = refl

surfaces : Format CommentSurface
surfaces = enums source (source ∷ rendered ∷ diff ∷ []) to law
  where
    to : CommentSurface → ℕ
    to source = 0
    to rendered = 1
    to diff = 2

    law :
        (x : CommentSurface) → or_else (get_elem? (source ∷ rendered ∷ diff ∷ []) (to x)) source ≡ x
    law source = refl
    law rendered = refl
    law diff = refl

viewer_kinds : Format CommentViewerKind
viewer_kinds =
    enums text (text ∷ markdown ∷ html ∷ image ∷ json ∷ yaml ∷ csv ∷ binary ∷ unknown ∷ []) to law
  where
    to : CommentViewerKind → ℕ
    to text = 0
    to markdown = 1
    to html = 2
    to image = 3
    to json = 4
    to yaml = 5
    to csv = 6
    to binary = 7
    to unknown = 8

    law :
        (x : CommentViewerKind)
        → or_else
            (get_elem?
              (text ∷ markdown ∷ html ∷ image ∷ json ∷ yaml ∷ csv ∷ binary ∷ unknown ∷ [])
              (to x))
            text
          ≡ x
    law text = refl
    law markdown = refl
    law html = refl
    law image = refl
    law json = refl
    law yaml = refl
    law csv = refl
    law binary = refl
    law unknown = refl

rendered_kinds : Format RenderedKind
rendered_kinds = enums markdown_page (markdown_page ∷ html_page ∷ []) to law
  where
    to : RenderedKind → ℕ
    to markdown_page = 0
    to html_page = 1

    law :
        (x : RenderedKind)
        → or_else (get_elem? (markdown_page ∷ html_page ∷ []) (to x)) markdown_page ≡ x
    law markdown_page = refl
    law html_page = refl

sides : Format DiffSide
sides = enums old (old ∷ new ∷ []) to law
  where
    to : DiffSide → ℕ
    to old = 0
    to new = 1

    law : (x : DiffSide) → or_else (get_elem? (old ∷ new ∷ []) (to x)) old ≡ x
    law old = refl
    law new = refl

change_kinds : Format ChangeKind
change_kinds = enums context (context ∷ added ∷ []) to law
  where
    to : ChangeKind → ℕ
    to context = 0
    to added = 1

    law : (x : ChangeKind) → or_else (get_elem? (context ∷ added ∷ []) (to x)) context ≡ x
    law context = refl
    law added = refl

event_types : Format ThreadEventType
event_types =
    enums thread_created
      (thread_created ∷ thread_status_changed ∷ thread_claimed ∷ thread_claim_released ∷ thread_read
        ∷ comment_added ∷ comment_updated ∷ [])
      to law
  where
    to : ThreadEventType → ℕ
    to thread_created = 0
    to thread_status_changed = 1
    to thread_claimed = 2
    to thread_claim_released = 3
    to thread_read = 4
    to comment_added = 5
    to comment_updated = 6

    law :
        (x : ThreadEventType)
        → or_else
            (get_elem?
              (thread_created ∷ thread_status_changed ∷ thread_claimed ∷ thread_claim_released
                ∷ thread_read ∷ comment_added ∷ comment_updated ∷ [])
              (to x))
            thread_created
          ≡ x
    law thread_created = refl
    law thread_status_changed = refl
    law thread_claimed = refl
    law thread_claim_released = refl
    law thread_read = refl
    law comment_added = refl
    law comment_updated = refl

actors : Format CommentActor
actors =
    through (λ r. (r.id, (r.kind, r.display_name))) from (λ r. refl)
      (texts ** sources ** options texts)
  where
    from : Text × (CommentSource × Option Text) → CommentActor
    from (x0, (x1, x2)) = record { id = x0; kind = x1; display_name = x2 }

source_anchors : Format SourceAnchor
source_anchors =
    through
      (λ r. (
        r.path,
        (r.line_start, (r.line_end, (r.column_start, (r.column_end, (r.quote, r.file_hash))))),
      ))
      from (λ r. refl)
      (texts
        ** options numbers
        ** options numbers
        ** options numbers
        ** options numbers
        ** options texts
        ** options texts)
  where
    from :
        Text × (Option ℕ × (Option ℕ × (Option ℕ × (Option ℕ × (Option Text × Option Text)))))
        → SourceAnchor
    from (x0, (x1, (x2, (x3, (x4, (x5, x6)))))) = record {
      path = x0;
      line_start = x1;
      line_end = x2;
      column_start = x3;
      column_end = x4;
      quote = x5;
      file_hash = x6;
    }

rendered_anchors : Format RenderedAnchor
rendered_anchors =
    through
      (λ r. (
        r.kind,
        (r.block_id, (r.selector, (r.text_quote, (r.source_line_start, r.source_line_end)))),
      ))
      from (λ r. refl)
      (rendered_kinds
        ** options texts
        ** options texts
        ** options texts
        ** options numbers
        ** options numbers)
  where
    from :
        RenderedKind × (Option Text × (Option Text × (Option Text × (Option ℕ × Option ℕ))))
        → RenderedAnchor
    from (x0, (x1, (x2, (x3, (x4, x5))))) = record {
      kind = x0;
      block_id = x1;
      selector = x2;
      text_quote = x3;
      source_line_start = x4;
      source_line_end = x5;
    }

diff_anchors : Format DiffAnchor
diff_anchors =
    through
      (λ r. (
        r.path,
        (
          r.base,
          (
            r.ref,
            (
              r.hunk_id,
              (
                r.side,
                (
                  r.old_line_start,
                  (
                    r.old_line_end,
                    (
                      r.new_line_start,
                      (r.new_line_end, (r.diff_hash, (r.file_hash, r.change_kind))),
                    ),
                  ),
                ),
              ),
            ),
          ),
        ),
      ))
      from (λ r. refl)
      (texts
        ** texts
        ** texts
        ** texts
        ** sides
        ** options numbers
        ** options numbers
        ** options numbers
        ** options numbers
        ** options texts
        ** options texts
        ** options change_kinds)
  where
    from :
        Text
          × (Text
              × (Text
                  × (Text
                      × (DiffSide
                          × (Option ℕ
                              × (Option ℕ
                                  × (Option ℕ
                                      × (Option ℕ
                                          × (Option Text
                                              × (Option Text × Option ChangeKind))))))))))
        → DiffAnchor
    from (x0, (x1, (x2, (x3, (x4, (x5, (x6, (x7, (x8, (x9, (x10, x11))))))))))) = record {
      path = x0;
      base = x1;
      ref = x2;
      hunk_id = x3;
      side = x4;
      old_line_start = x5;
      old_line_end = x6;
      new_line_start = x7;
      new_line_end = x8;
      diff_hash = x9;
      file_hash = x10;
      change_kind = x11;
    }

anchors : Format CommentAnchor
anchors =
    through (λ r. (r.canonical, (r.surface, (r.rendered_anchor, r.diff_anchor)))) from (λ r. refl)
      (source_anchors ** surfaces ** options rendered_anchors ** options diff_anchors)
  where
    from :
        SourceAnchor × (CommentSurface × (Option RenderedAnchor × Option DiffAnchor))
        → CommentAnchor
    from (x0, (x1, (x2, x3))) = record {
      canonical = x0;
      surface = x1;
      rendered_anchor = x2;
      diff_anchor = x3;
    }

pub comments : Format ViviComment
comments =
    through
      (λ r. (
        r.id,
        (
          r.thread_id,
          (
            r.path,
            (
              r.viewer_kind,
              (
                r.review_batch_id,
                (
                  r.anchor,
                  (
                    r.body,
                    (
                      r.created_by,
                      (
                        r.author,
                        (
                          r.comment_source,
                          (
                            r.status,
                            (r.created_at, (r.updated_at, (r.resolved_at, r.archived_at))),
                          ),
                        ),
                      ),
                    ),
                  ),
                ),
              ),
            ),
          ),
        ),
      ))
      from (λ r. refl)
      (texts
        ** options texts
        ** texts
        ** viewer_kinds
        ** options texts
        ** anchors
        ** texts
        ** options actors
        ** options texts
        ** options sources
        ** statuses
        ** texts
        ** texts
        ** options texts
        ** options texts)
  where
    from :
        Text
          × (Option Text
              × (Text
                  × (CommentViewerKind
                      × (Option Text
                          × (CommentAnchor
                              × (Text
                                  × (Option CommentActor
                                      × (Option Text
                                          × (Option CommentSource
                                              × (CommentStatus
                                                  × (Text
                                                      × (Text
                                                          × (Option Text × Option Text)))))))))))))
        → ViviComment
    from
          (
            x0,
            (x1, (x2, (x3, (x4, (x5, (x6, (x7, (x8, (x9, (x10, (x11, (x12, (x13, x14))))))))))))),
          ) =
        record {
          id = x0;
          thread_id = x1;
          path = x2;
          viewer_kind = x3;
          review_batch_id = x4;
          anchor = x5;
          body = x6;
          created_by = x7;
          author = x8;
          comment_source = x9;
          status = x10;
          created_at = x11;
          updated_at = x12;
          resolved_at = x13;
          archived_at = x14;
        }

threads : Format CommentThread
threads =
    through
      (λ r. (
        r.id,
        (
          r.path,
          (
            r.status,
            (
              r.review_batch_id,
              (
                r.anchor,
                (r.updated_at, (r.created_at, (r.resolved_at, (r.archived_at, r.comments)))),
              ),
            ),
          ),
        ),
      ))
      from (λ r. refl)
      (texts
        ** texts
        ** statuses
        ** options texts
        ** anchors
        ** texts
        ** texts
        ** options texts
        ** options texts
        ** lists comments)
  where
    from :
        Text
          × (Text
              × (CommentStatus
                  × (Option Text
                      × (CommentAnchor
                          × (Text × (Text × (Option Text × (Option Text × List ViviComment))))))))
        → CommentThread
    from (x0, (x1, (x2, (x3, (x4, (x5, (x6, (x7, (x8, x9))))))))) = record {
      id = x0;
      path = x1;
      status = x2;
      review_batch_id = x3;
      anchor = x4;
      updated_at = x5;
      created_at = x6;
      resolved_at = x7;
      archived_at = x8;
      comments = x9;
    }

pub drafts : Format DraftReviewComment
drafts =
    through
      (λ r. (
        r.id,
        (
          r.thread_id,
          (
            r.path,
            (
              r.viewer_kind,
              (
                r.anchor,
                (
                  r.body,
                  (r.created_by, (r.author, (r.comment_source, (r.created_at, r.updated_at)))),
                ),
              ),
            ),
          ),
        ),
      ))
      from (λ r. refl)
      (texts
        ** options texts
        ** texts
        ** viewer_kinds
        ** anchors
        ** texts
        ** options actors
        ** options texts
        ** options sources
        ** texts
        ** texts)
  where
    from :
        Text
          × (Option Text
              × (Text
                  × (CommentViewerKind
                      × (CommentAnchor
                          × (Text
                              × (Option CommentActor
                                  × (Option Text × (Option CommentSource × (Text × Text)))))))))
        → DraftReviewComment
    from (x0, (x1, (x2, (x3, (x4, (x5, (x6, (x7, (x8, (x9, x10)))))))))) = record {
      id = x0;
      thread_id = x1;
      path = x2;
      viewer_kind = x3;
      anchor = x4;
      body = x5;
      created_by = x6;
      author = x7;
      comment_source = x8;
      created_at = x9;
      updated_at = x10;
    }

pub events : Format ThreadEvent
events =
    through
      (λ r. (
        r.kind,
        (
          r.at,
          (
            r.thread,
            (
              r.thread_id,
              (
                r.status,
                (
                  r.previous_status,
                  (r.comment_id, (r.client_event_id, (r.lease_expires_at, (r.actor, r.id)))),
                ),
              ),
            ),
          ),
        ),
      ))
      from (λ r. refl)
      (event_types
        ** options texts
        ** options threads
        ** options texts
        ** options statuses
        ** options statuses
        ** options texts
        ** options texts
        ** options texts
        ** options actors
        ** options texts)
  where
    from :
        ThreadEventType
          × (Option Text
              × (Option CommentThread
                  × (Option Text
                      × (Option CommentStatus
                          × (Option CommentStatus
                              × (Option Text
                                  × (Option Text
                                      × (Option Text × (Option CommentActor × Option Text)))))))))
        → ThreadEvent
    from (x0, (x1, (x2, (x3, (x4, (x5, (x6, (x7, (x8, (x9, x10)))))))))) = record {
      kind = x0;
      at = x1;
      thread = x2;
      thread_id = x3;
      status = x4;
      previous_status = x5;
      comment_id = x6;
      client_event_id = x7;
      lease_expires_at = x8;
      actor = x9;
      id = x10;
    }

abbrev pub codecs : Codecs
codecs = record { comment = codec_of comments; draft = codec_of drafts; event = codec_of events }
