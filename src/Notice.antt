-- ===== src/Notice.antt =====
-- Package notice: the templates of the mail that an analyst writes.
pub mod Template
