-- ===== src/Extraction.antt =====
-- taintforge_env/requirement_extractor.py: the requirements that the events of a run show. Python's
-- `str`, `int` and regular expressions are parameters. A text is the list of its code points.
pub mod Table
pub mod Syscalls
pub mod Merged
pub mod Directories
